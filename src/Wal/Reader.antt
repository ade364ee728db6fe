-- ===== src/Wal/Reader.antt =====
-- crates/mangle-wal/src/codec.rs: the primitive writers and `Reader`. A byte is a number below 256,
-- and `usize` has 64 bits.
use mangle_rs.Prelude.{
  ℕ, zero, suc, ◌+◌, ◌*◌, ◌/◌, ◌%◌, ◌^◌, ◌≤◌, ◌<◌, ◌≡◌, refl, sym, ap, ◌∙◌, Bool, true, false, not,
  List, [], ◌∷◌, ◌++◌, arith, ltb, nat_beq, if◌then◌else◌, lt→ltb, nat_beq_iff, length, get_elem?,
  take, drop, length-append, take-length-append, drop-length-append, nat_eq, list_eq, pair_eq, Str,
  Error, Outcome, ◌>>=◌, or_panic, ok, err, int_eq,
}

-- `to_le_bytes`, `from_le_bytes`
unfoldable pub to_le : ℕ → ℕ → List ℕ
to_le zero v = []
to_le (suc k) v = (v % 256) ∷ to_le k (v / 256)

unfoldable pub from_le : List ℕ → ℕ
from_le [] = 0
from_le (b ∷ bs) = b + 256 * from_le bs

unfoldable pub put_u64 : List ℕ → ℕ → List ℕ
unfolding to_le
put_u64 out v = out ++ to_le 8 v

abbrev pub byte_of : Bool → ℕ
byte_of true = 1
byte_of false = 0

unfoldable pub put_bool : List ℕ → Bool → List ℕ
put_bool out v = out ++ byte_of v ∷ []

unfoldable pub put_str : List ℕ → Str → List ℕ
unfolding put_u64
put_str out s = put_u64 out (length s) ++ s

pub record Reader : Type 0 where
  pub buf : List ℕ
  pub pos : ℕ

abbrev pub new : List ℕ → Reader
new buf = record { buf = buf; pos = 0 }

abbrev pub advance : ℕ → Reader → Reader
advance n r = record r { pos = r.pos + n }

unfoldable pub take_bytes : ℕ → Reader → Outcome (List ℕ × Reader)
take_bytes n r =
    if ltb (r.pos + n) (2 ^ 64)
    then if ltb (length r.buf) (r.pos + n)
      then err Error.truncated
      else ok (take n (drop r.pos r.buf), advance n r)
    else err Error.length_overflow

unfoldable pub read_u64 : Reader → Outcome (ℕ × Reader)
unfolding take_bytes from_le
read_u64 r = take_bytes 8 r >>= λ p. ok (from_le p.0, p.1)

unfoldable pub read_bool : Reader → Outcome (Bool × Reader)
unfolding take_bytes
read_bool r =
    take_bytes 1 r >>= λ p. or_panic (get_elem? p.0 0) >>= λ b. ok (not (nat_beq b 0), p.1)

-- `String::from_utf8` checks its bytes: the check is the parameter.
unfoldable pub read_str : (List ℕ → Bool) → Reader → Outcome (Str × Reader)
unfolding read_u64 take_bytes
read_str is_utf8 r = do
  (len, r') ← read_u64 r
  (b, r'') ← take_bytes len r'
  if is_utf8 b then ok (b, r'') else err Error.invalid_utf8

-- `r.done()?`, in front of what is returned
unfoldable pub done {ℓ} : {A : Type ℓ} → Reader → A → Outcome A
done r a = if nat_beq r.pos (length r.buf) then ok a else err Error.trailing

-- The reader stands in front of these bytes, the last ones of its buffer.
pub record At (r : Reader) (bs : List ℕ) : Type 0 where
  pub here : drop r.pos r.buf ≡ bs
  pub ends : r.pos + length bs ≡ length r.buf
  pub small : length r.buf < 2 ^ 64

pub At-new : (buf : List ℕ) → length buf < 2 ^ 64 → At (new buf) buf
At-new buf h = record { here = refl; ends = omega arith; small = h }

drop-nil : {A : Type 0} (k : ℕ) → drop {A = A} k [] ≡ []
drop-nil zero = refl
drop-nil (suc k) = refl

zero_add_lem : (n : ℕ) → 0 + n ≡ n
zero_add_lem n = omega arith

suc_add_lem : (i n : ℕ) → suc i + n ≡ suc (i + n)
suc_add_lem i n = omega arith

drop-drop : {A : Type 0} (i n : ℕ) (xs : List A) → drop (i + n) xs ≡ drop n (drop i xs)
drop-drop zero n xs = ap (λ k. drop k xs) (zero_add_lem n)
drop-drop (suc i) n [] = drop-nil (suc i + n) ∙ sym (drop-nil n)
drop-drop (suc i) n (x ∷ xs) = ap (λ k. drop k (x ∷ xs)) (suc_add_lem i n) ∙ drop-drop i n xs

pub not_above : (a b : ℕ) → b ≤ a → ltb a b ≡ false
not_above a b h = ground arith

-- What is written is what is taken, and the reader stands behind it.
pub take_bytes-At :
    (r : Reader) (xs rest : List ℕ)
    → At r (xs ++ rest)
    → (take_bytes (length xs) r ≡ ok (xs, advance (length xs) r)) × At (advance (length xs) r) rest
unfolding take_bytes
take_bytes-At r xs rest h =
    let fits : r.pos + length xs ≤ length r.buf = omega (arith, h.ends, length-append xs rest) in
    (
      rw (
        lt→ltb (r.pos + length xs) (2 ^ 64) (omega (arith, fits, h.small)),
        not_above (length r.buf) (r.pos + length xs) fits,
        h.here,
        take-length-append xs rest,
      ),
      record {
        here =
            drop-drop r.pos (length xs) r.buf
            ∙ ap (λ l. drop (length xs) l) h.here
            ∙ drop-length-append xs rest;
        ends = omega (arith, h.ends, length-append xs rest);
        small = h.small;
      },
    )

abbrev pub capacity : ℕ → ℕ
capacity zero = 1
capacity (suc k) = 256 * capacity k

pub length-to_le : (k v : ℕ) → length (to_le k v) ≡ k
unfolding to_le
length-to_le zero v = refl
length-to_le (suc k) v = ap suc (length-to_le k (v / 256))

from_le-to_le : (k v : ℕ) → v < capacity k → from_le (to_le k v) ≡ v
unfolding from_le to_le
from_le-to_le zero v h = omega arith
from_le-to_le (suc k) v h = rw (from_le-to_le k (v / 256) (omega arith)) (omega arith)

pub read_u64-At :
    (r : Reader) (v : ℕ) (rest : List ℕ)
    → v < 2 ^ 64
    → At r (to_le 8 v ++ rest)
    → (read_u64 r ≡ ok (v, advance 8 r)) × At (advance 8 r) rest
unfolding read_u64 to_le
read_u64-At r v rest small h =
    let (taken, at) = take_bytes-At r (to_le 8 v) rest h in
    (rw (taken, from_le-to_le 8 v small), at)

pub read_bool-At :
    (r : Reader) (v : Bool) (rest : List ℕ)
    → At r (byte_of v ∷ rest)
    → (read_bool r ≡ ok (v, advance 1 r)) × At (advance 1 r) rest
unfolding read_bool
read_bool-At r v rest h =
    let (taken, at) = take_bytes-At r (byte_of v ∷ []) rest h in (rw taken (go v), at)
  where
    go :
        (b : Bool)
        → ◌≡◌ {A = Outcome (Bool × Reader)}
            (ok (not (nat_beq (byte_of b) 0), advance 1 r))
            (ok (b, advance 1 r))
    go true = refl
    go false = refl

pub done-At : {A : Type 0} (r : Reader) (a : A) → At r [] → done r a ≡ ok a
unfolding done
done-At r a h = rw ((nat_beq_iff r.pos (length r.buf)).1 (omega (arith, h.ends)))
