-- ===== src/Ir/Physical.antt =====
-- crates/mangle-ir/src/physical.rs: the operations of a physical plan. A `NameId` or `StringId` is
-- the number that it holds.
use mangle_rs.Prelude.{ℕ, ℤ, List}

pub data Constant : Type 0 where
  number : ℤ → Constant
  float : ℕ → Constant
  string : ℕ → Constant
  name : ℕ → Constant
  time : ℤ → Constant
  duration : ℤ → Constant

pub data Operand : Type 0 where
  var : ℕ → Operand
  const : Constant → Operand

pub data Expr : Type 0 where
  value : Operand → Expr
  call : ℕ → List Operand → Expr

pub data CmpOp : Type 0 where
  eq neq lt le gt ge : CmpOp

pub data Condition : Type 0 where
  cmp : CmpOp → Operand → Operand → Condition
  negation : ℕ → List Operand → Condition
  call : ℕ → List Operand → Condition
  not : Condition → Condition

pub data DataSource : Type 0 where
  scan : ℕ → List ℕ → DataSource
  scan_delta : ℕ → List ℕ → DataSource
  index_lookup : ℕ → ℕ → Operand → List ℕ → DataSource

pub record Aggregate : Type 0 where
  pub var : ℕ
  pub func : ℕ
  pub args : List Operand

mutual
  pub data Op : Type 0 where
    nop : Op
    seq : Ops → Op
    iterate : DataSource → Op → Op
    filter : Condition → Op → Op
    insert : ℕ → List Operand → Op
    let_ : ℕ → Expr → Op → Op
    group_by : ℕ → List ℕ → List ℕ → List Aggregate → Op → Op
    hash_join : DataSource → DataSource → List ℕ → Op → Op
    match_field : Operand → ℕ → ℕ → Op → Op
    iterate_list : Operand → ℕ → Op → Op

  -- the operations of a `Seq`
  pub data Ops : Type 0 where
    nil : Ops
    cons : Op → Ops → Ops
