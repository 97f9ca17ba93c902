-- ===== src/Federate/Triggers/Bounds.antt =====
-- Every access to the trigger tables is inside its array.
use mathlib.Core.Path.{subst}
use lf_autoware.Base.{
  ℕ, zero, suc, ◌+◌, ◌≤◌, ◌<◌, ◌≡◌, refl, sym, ap, ◌∙◌, true, none, some, List, [], ◌∷◌, length,
  set, get_elem?, replicate, ltb, arith, All, length-set, length-replicate,
}
use lf_autoware.Federate.Preamble.{NetworkAction, StaaInit, Preamble}
use lf_autoware.Federate.Triggers.{
  never, ActionPtr, Triggers, globals, enter_action, enter_actions, read, copy_actions, staa_entry,
  staa_entries, initialize_triggers_for_federate,
}
use lf_autoware.Federate.Triggers.Tables.{IsSized, enter_actions-staa}
use lf_autoware.Federate.Triggers.Checked.{
  store, checked_enter_action, checked_enter_actions, checked_copy_actions, checked_staa_entry,
  checked_staa_entries, checked_initialize_triggers,
}

store-lt :
    {A : Type 0} (xs : List A) (i : ℕ) (v : A) → i < length xs → store xs i v ≡ some (set xs i v)
store-lt xs i v h = let e : ltb i (length xs) ≡ true = ground arith in rw e refl

get_elem?-read :
    (table : List ActionPtr) (k : ℕ) → k < length table → get_elem? table k ≡ some (read table k)
get_elem?-read [] k h = absurd (omega arith)
get_elem?-read (a ∷ as') zero h = refl
get_elem?-read (a ∷ as') (suc k) h = get_elem?-read as' k (omega arith)

checked_enter_action-lt :
    (i : ℕ) (a : NetworkAction) (t : Triggers)
    → i < length t.action_delay_table
    → i < length t.action_table
    → checked_enter_action i a t ≡ some (enter_action i a t)
unfolding checked_enter_action enter_action
checked_enter_action-lt i a t d h =
    rw (store-lt t.action_delay_table i never d, store-lt t.action_table i (some a.self) h) refl

checked_enter_actions-le :
    (i : ℕ) (xs : List NetworkAction) (t : Triggers)
    → i + length xs ≤ length t.action_delay_table
    → i + length xs ≤ length t.action_table
    → checked_enter_actions i xs t ≡ some (enter_actions i xs t)
unfolding checked_enter_actions enter_actions enter_action
checked_enter_actions-le i [] t d h = refl
checked_enter_actions-le i (x ∷ xs) t d h =
    rw (checked_enter_action-lt i x t (omega arith) (omega arith)) (
      checked_enter_actions-le (suc i) xs (enter_action i x t)
        (omega (arith, length-set t.action_delay_table i never))
        (omega (arith, length-set t.action_table i (some x.self))))

enter_actions-length :
    (i : ℕ) (xs : List NetworkAction) (t : Triggers)
    → length (enter_actions i xs t).action_table ≡ length t.action_table
unfolding enter_actions enter_action
enter_actions-length i [] t = refl
enter_actions-length i (x ∷ xs) t =
    enter_actions-length (suc i) xs (enter_action i x t) ∙ length-set t.action_table i (some x.self)

checked_copy_actions-le :
    (table : List ActionPtr) (i : ℕ) (ks : List ℕ) (out : List ActionPtr)
    → All (λ k. k < length table) ks
    → i + length ks ≤ length out
    → checked_copy_actions table i ks out ≡ some (copy_actions table i ks out)
unfolding checked_copy_actions copy_actions
checked_copy_actions-le table i [] out b h = refl
checked_copy_actions-le table i (k ∷ ks) out b h =
    rw (get_elem?-read table k b.0, store-lt out i (read table k) (omega arith))
      (checked_copy_actions-le table (suc i) ks (set out i (read table k)) b.1
        (omega (arith, length-set out i (read table k))))

-- The actions of an entry fit into what is allocated for them, and their indices are inside a table
-- of the given size.
pub record IsInside (size : ℕ) (s : StaaInit) : Type 0 where
  pub room : length s.action_indices ≤ s.allocated
  pub indices : All (λ k. k < size) s.action_indices

checked_staa_entry-inside :
    (table : List ActionPtr) (s : StaaInit)
    → IsInside (length table) s
    → checked_staa_entry table s ≡ some (staa_entry table s)
unfolding checked_staa_entry staa_entry
checked_staa_entry-inside table s h =
    rw
      (checked_copy_actions-le table 0 s.action_indices (replicate s.allocated none) h.indices
        (omega (arith, h.room, length-replicate {A = ActionPtr} s.allocated none)))
      refl

checked_staa_entries-inside :
    (n : ℕ) (ss : List StaaInit) (t : Triggers)
    → All (IsInside (length t.action_table)) ss
    → n + length ss ≤ length t.staa_lst
    → checked_staa_entries n ss t ≡ some (staa_entries n ss t)
unfolding checked_staa_entries staa_entries
checked_staa_entries-inside n [] t b h = refl
checked_staa_entries-inside n (s ∷ ss) t b h =
    rw
      (
        checked_staa_entry-inside t.action_table s b.0,
        store-lt t.staa_lst n (some (staa_entry t.action_table s)) (omega arith),
      )
      (checked_staa_entries-inside (suc n) ss
        (record t { staa_lst = set t.staa_lst n (some (staa_entry t.action_table s)) }) b.1
        (omega (arith, length-set t.staa_lst n (some (staa_entry t.action_table s)))))

-- For a preamble whose declared sizes fit, and whose staa entries name actions of the table, the
-- initialization of the zeroed globals makes no access past the end of an array, and checking every
-- access changes nothing.
pub checked-eq-unchecked :
    (p : Preamble)
    → IsSized p
    → All (IsInside p.action_table_length) p.staa_lst
    → checked_initialize_triggers p (globals p)
      ≡ some (initialize_triggers_for_federate p (globals p))
unfolding checked_initialize_triggers initialize_triggers_for_federate globals
checked-eq-unchecked p h inside =
    rw
      (checked_enter_actions-le 0 p.network_actions (globals p)
        (omega (arith, h.actions, h.delays, delays)) (omega (arith, h.actions, h.table, table)))
      (checked_staa_entries-inside 0 p.staa_lst entered
        (subst (λ n. All (IsInside n) p.staa_lst)
          (sym (enter_actions-length 0 p.network_actions (globals p) ∙ table)) inside)
        (omega (
          arith,
          ap length (enter_actions-staa 0 p.network_actions (globals p)),
          h.entries,
          entries,
        )))
  where
    entered : Triggers
    entered = enter_actions 0 p.network_actions (globals p)

    delays : length (globals p).action_delay_table ≡ p.action_delay_table_length
    delays = length-replicate p.action_delay_table_length _

    table : length (globals p).action_table ≡ p.action_table_length
    table = length-replicate p.action_table_length _

    entries : length (globals p).staa_lst ≡ p.staa_lst_length
    entries = length-replicate p.staa_lst_length _
