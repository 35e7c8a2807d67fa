-- ===== src/Accumulate.antt =====
-- `AccumulatorService` and `PartitionedValue` of bndl/compute/accumulate.py. What the operators do is
-- a matter of the accumulated values, whose type is a parameter; an operator may raise.
use bndl.Prelude.{ℕ, ◌+◌, Bool, true, false, Option, none, some, List, [], ◌∷◌}
use bndl.Prelude.Exec.{Result, ok, err}
use bndl.Prelude.Dict.{get, set_item, del_item}
pub mod Updates

pub data Op : Type 0 where
  plus minus times divide shift_left shift_right bit_and bit_or : Op
  -- the name of a method of the value, as a number
  method : ℕ → Op

-- The in-place operators of a value, each with the new value or what it raises.
pub record Operators (V : Type 0) : Type 0 where
  pub add : V → V → Result ℕ V
  pub sub : V → V → Result ℕ V
  pub mul : V → V → Result ℕ V
  pub truediv : V → V → Result ℕ V
  pub lshift : V → V → Result ℕ V
  pub rshift : V → V → Result ℕ V
  pub conj : V → V → Result ℕ V
  pub disj : V → V → Result ℕ V
  pub call : ℕ → V → V → Result ℕ V

-- `accumulators` with the value of each accumulator, and the keys of `locks`.
pub record Service (V : Type 0) : Type 0 where
  pub accumulators : List (ℕ × V)
  pub locks : List (ℕ × Unit {0})

module _ {V : Type 0} (operators : Operators V) where
  -- The chain of `if op == ...`.
  unfoldable pub apply_op : Op → V → V → Result ℕ V
  apply_op plus v x = operators.add v x
  apply_op minus v x = operators.sub v x
  apply_op times v x = operators.mul v x
  apply_op divide v x = operators.truediv v x
  apply_op shift_left v x = operators.lshift v x
  apply_op shift_right v x = operators.rshift v x
  apply_op bit_and v x = operators.conj v x
  apply_op bit_or v x = operators.disj v x
  apply_op (method name) v x = operators.call name v x

  unfoldable pub register : ℕ → V → Service V → Service V
  register aid initial s = record {
    accumulators = set_item aid initial s.accumulators;
    locks = set_item aid tt s.locks;
  }

  abbrev pub deregister_found : ℕ → Service V → Option V → Option (Unit {0}) → Bool × Service V
  deregister_found aid s none lock = (false, s)
  deregister_found aid s (some v) none =
      (false, record s { accumulators = del_item aid s.accumulators })
  deregister_found aid s (some v) (some _) =
      (true, record { accumulators = del_item aid s.accumulators; locks = del_item aid s.locks })

  -- `false` for a `KeyError`.
  unfoldable pub deregister : ℕ → Service V → Bool × Service V
  deregister aid s = deregister_found aid s (get aid s.accumulators) (get aid s.locks)

  abbrev pub remove_found : ℕ → Service V → Option (Unit {0}) → Service V
  remove_found aid s none = s
  remove_found aid s (some _) = record {
    accumulators = del_item aid s.accumulators;
    locks = del_item aid s.locks;
  }

  -- `remove_lock`, when nothing refers to an accumulator any more. An exception of such a callback
  -- has no effect.
  unfoldable pub remove_lock : ℕ → Service V → Service V
  remove_lock aid s = remove_found aid s (get aid s.locks)

  -- What an operator raises is logged.
  abbrev pub assign_value : ℕ → Service V → Result ℕ V → Service V
  assign_value aid s (ok v) = record s { accumulators = set_item aid v s.accumulators }
  assign_value aid s (err e) = s

  abbrev pub update_value : ℕ → Op → V → Service V → Option V → Service V
  update_value aid op value s none = s
  update_value aid op value s (some v) = assign_value aid s (apply_op op v value)

  abbrev pub update_locked : ℕ → Op → V → Service V → Option (Unit {0}) → Service V
  update_locked aid op value s none = s
  update_locked aid op value s (some _) = update_value aid op value s (get aid s.accumulators)

  unfoldable pub update : ℕ → Op → V → Service V → Service V
  unfolding apply_op
  update aid op value s = update_locked aid op value s (get aid s.locks)

-- `PartitionedValue.__iadd__`
unfoldable pub add_partition : ℕ × ℕ → List (ℕ × ℕ) → List (ℕ × ℕ)
add_partition (pidx, value) d = set_item pidx value d

-- `PartitionedValue.sum`
abbrev pub sum_values : List (ℕ × ℕ) → ℕ → ℕ
sum_values [] initial = initial
sum_values ((pidx, value) ∷ d) initial = sum_values d (initial + value)
