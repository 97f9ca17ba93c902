-- ===== src/Config/Spin.antt =====
-- The spin threads `spin_node` and `spin_node_with_executor` (lf-src/lf-include/utils.hpp). What
-- rclcpp::ok() answers, one query after the other, is a parameter.
use lf_autoware.Base.{
  ℕ, zero, suc, ◌+◌, ◌<◌, ◌≡◌, refl, ap, ◌∙◌, Bool, true, false, Option, none, some, List, [], ◌∷◌,
  ◌++◌, arith, if◌then◌else◌,
}
use mathlib.Core.Option

pub data Action : Type 0 where
  spin_some : Action  -- rclcpp::spin_some(node_shared_ptr)
  sleep_1ms : Action
  add_node : Action  -- executor.add_node(node_shared_ptr)
  spin_some_1ms : Action  -- executor.spin_some(std::chrono::milliseconds(1))
  delete_pointer : Action  -- delete node_shared_ptr_ptr

-- while (rclcpp::ok()) { body } from the `n`-th query on; `none` if it has not ended in `fuel` rounds.
unfoldable pub spin_while_ok : List Action → (ℕ → Bool) → ℕ → ℕ → Option (List Action)
spin_while_ok body ok zero n = none
spin_while_ok body ok (suc fuel) n = elim (ok n) [
  | true ↦ Option.map (λ rest. body ++ rest) (spin_while_ok body ok fuel (suc n))
  | false ↦ some (delete_pointer ∷ [])
]

unfoldable pub spin_node : (ℕ → Bool) → ℕ → Option (List Action)
unfolding spin_while_ok
spin_node ok fuel = spin_while_ok (spin_some ∷ sleep_1ms ∷ []) ok fuel 0

unfoldable pub spin_node_with_executor : (ℕ → Bool) → ℕ → Option (List Action)
unfolding spin_while_ok
spin_node_with_executor ok fuel =
    Option.map (λ rest. add_node ∷ rest) (spin_while_ok (spin_some_1ms ∷ []) ok fuel 0)

-- The first negative answer is the `k`-th from `n` on.
abbrev pub StopsAfter : (ℕ → Bool) → ℕ → ℕ → Type 0
StopsAfter ok n zero = ok n ≡ false
StopsAfter ok n (suc k) = (ok n ≡ true) × StopsAfter ok (suc n) k

-- How the thread leaves the node: whether its executor has it, how often its callbacks have been
-- run, and whether the pointer to it has been freed. `none` is a use of a freed pointer.
pub record Spun : Type 0 where
  pub added : Bool
  pub served : ℕ
  pub freed : Bool

-- What an action does to a node: an executor runs the callbacks of a node that it has.
abbrev pub effect : Action → Spun → Spun
effect spin_some s = record s { served = suc s.served }
effect sleep_1ms s = s
effect add_node s = record s { added = true }
effect spin_some_1ms s = record s { served = if s.added then suc s.served else s.served }
effect delete_pointer s = record s { freed = true }

unfoldable pub spun : List Action → Spun → Option Spun
spun [] s = some s
spun (a ∷ as') s = if s.freed then none else spun as' (effect a s)

abbrev pub fresh_node : Spun
fresh_node = record { added = false; served = 0; freed = false }

abbrev pub left_after : Bool → ℕ → Option Spun
left_after added k = some (record { added = added; served = k; freed = true })

-- The thread ends and leaves the node so.
abbrev pub Leaves : Option (List Action) → Spun → Option Spun → Type 0
Leaves o s r = (as' : List Action) × (o ≡ some as') × (spun as' s ≡ r)

plus_suc : (added : Bool) (m k : ℕ) → left_after added (suc m + k) ≡ left_after added (m + suc k)
plus_suc added m k = let e : suc m + k ≡ m + suc k = omega arith in ap (left_after added) e

node_loop :
    (ok : ℕ → Bool) (k fuel n m : ℕ)
    → k < fuel
    → StopsAfter ok n k
    → Leaves
        (spin_while_ok (spin_some ∷ sleep_1ms ∷ []) ok fuel n)
        (record { added = false; served = m; freed = false })
        (left_after false (m + k))
unfolding spin_while_ok spun
node_loop ok k zero n m h s = elim h [ ]
node_loop ok zero (suc fuel) n m h s = (
  delete_pointer ∷ [],
  rw (s, spin_while_ok) refl,
  let e : m ≡ m + 0 = omega arith in ap (left_after false) e,
)
node_loop ok (suc k) (suc fuel) n m h s =
    let (rest, e, r) = node_loop ok k fuel (suc n) (suc m) (omega arith) s.1 in
    (spin_some ∷ sleep_1ms ∷ rest, rw (s.0, spin_while_ok) (rw e refl), r ∙ plus_suc false m k)

executor_loop :
    (ok : ℕ → Bool) (k fuel n m : ℕ)
    → k < fuel
    → StopsAfter ok n k
    → Leaves
        (spin_while_ok (spin_some_1ms ∷ []) ok fuel n)
        (record { added = true; served = m; freed = false })
        (left_after true (m + k))
unfolding spin_while_ok spun
executor_loop ok k zero n m h s = elim h [ ]
executor_loop ok zero (suc fuel) n m h s = (
  delete_pointer ∷ [],
  rw (s, spin_while_ok) refl,
  let e : m ≡ m + 0 = omega arith in ap (left_after true) e,
)
executor_loop ok (suc k) (suc fuel) n m h s =
    let (rest, e, r) = executor_loop ok k fuel (suc n) (suc m) (omega arith) s.1 in
    (spin_some_1ms ∷ rest, rw (s.0, spin_while_ok) (rw e refl), r ∙ plus_suc true m k)

-- Let the `k + 1`-th query of rclcpp::ok() be the first to fail, and the fuel be more than `k`. Then
-- both kinds of spin thread end. Each has run the callbacks of its node `k` times, whether directly
-- or through an executor, which runs those of the nodes added to it, and has then freed its pointer
-- once, with nothing done after that.
pub spin_rounds :
    (ok : ℕ → Bool) (k fuel : ℕ)
    → k < fuel
    → StopsAfter ok 0 k
    → Leaves (spin_node ok fuel) fresh_node (left_after false k)
      × Leaves (spin_node_with_executor ok fuel) fresh_node (left_after true k)
unfolding spin_node spin_node_with_executor spun
spin_rounds ok k fuel h s =
    let (direct, e0, r0) = node_loop ok k fuel 0 0 h s in
    let (rest, e, r) = executor_loop ok k fuel 0 0 h s in
    let none_before : 0 + k ≡ k = omega arith in
    (
      (direct, e0, r0 ∙ ap (left_after false) none_before),
      (
        add_node ∷ rest,
        ap (Option.map (λ l. add_node ∷ l)) e,
        r ∙ ap (left_after true) none_before,
      ),
    )
