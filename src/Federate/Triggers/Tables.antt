-- ===== src/Federate/Triggers/Tables.antt =====
-- What the tables hold after `initialize_triggers_for_federate`.
use lf_autoware.Base.{
  ℕ, suc, ◌≡◌, refl, ap, sym, ◌∙◌, Option, none, some, List, [], ◌∷◌, ◌++◌, map, length, set,
  replicate, All, write_from, write_from-nil, write_from-cons, write_all, length-replicate,
  append_assoc, append-nil,
}
use lf_autoware.Federate.Preamble.{NetworkAction, StaaInit, Preamble}
use lf_autoware.Federate.Triggers.{
  never, nsec, ActionPtr, Staa, Triggers, globals, enter_action, enter_actions, read, copy_actions,
  staa_entry, staa_entries, initialize_triggers_for_federate,
}

-- An entry of `staa_lst` counts and allocates as many actions as it is assigned.
pub record IsSizedEntry (s : StaaInit) : Type 0 where
  pub count : s.num_actions ≡ length s.action_indices
  pub room : s.allocated ≡ length s.action_indices

-- The lengths and sizes that the preamble declares are those of what it assigns.
pub record IsSized (p : Preamble) : Type 0 where
  pub actions : length p.network_actions ≡ p.action_table_size
  pub table : p.action_table_length ≡ p.action_table_size
  pub delays : p.action_delay_table_length ≡ p.action_table_size
  pub entries : p.staa_lst_length ≡ length p.staa_lst
  pub size : p.staa_lst_size ≡ p.staa_lst_length
  pub staas : All IsSizedEntry p.staa_lst

abbrev pub action_ptrs : Preamble → List ActionPtr
action_ptrs p = map (λ a. some a.self) p.network_actions

-- The entry of `staa_lst` that waits for the listed actions.
abbrev pub waits_for : List ActionPtr → StaaInit → Option Staa
waits_for table s = some (record {
  staa = s.staa;
  num_actions = s.num_actions;
  actions = map (read table) s.action_indices;
})

pub length-map : {A B : Type 0} (f : A → B) (xs : List A) → length (map f xs) ≡ length xs
length-map f [] = refl
length-map f (x ∷ xs) = ap suc (length-map f xs)

enter_actions-table :
    (i : ℕ) (xs : List NetworkAction) (t : Triggers)
    → (enter_actions i xs t).action_table ≡ write_from i (map (λ a. some a.self) xs) t.action_table
unfolding enter_actions
enter_actions-table i [] t = sym (write_from-nil i t.action_table)
enter_actions-table i (x ∷ xs) t =
    rw write_from-cons (enter_actions-table (suc i) xs (enter_action i x t))

enter_actions-delays :
    (i : ℕ) (xs : List NetworkAction) (t : Triggers)
    → (enter_actions i xs t).action_delay_table
      ≡ write_from i (replicate (length xs) never) t.action_delay_table
unfolding enter_actions
enter_actions-delays i [] t = sym (write_from-nil i t.action_delay_table)
enter_actions-delays i (x ∷ xs) t =
    rw write_from-cons (enter_actions-delays (suc i) xs (enter_action i x t))

enter_actions-sources :
    (i : ℕ) (xs : List NetworkAction) (t : Triggers)
    → (enter_actions i xs t).source_ids ≡ t.source_ids ++ map (λ a. (a.self, a.source_id)) xs
unfolding enter_actions
enter_actions-sources i [] t = sym (append-nil t.source_ids)
enter_actions-sources i (x ∷ xs) t =
    rw (enter_actions-sources (suc i) xs (enter_action i x t))
      (append_assoc t.source_ids ((x.self, x.source_id) ∷ []) (map (λ a. (a.self, a.source_id)) xs))

pub enter_actions-staa :
    (i : ℕ) (xs : List NetworkAction) (t : Triggers) → (enter_actions i xs t).staa_lst ≡ t.staa_lst
unfolding enter_actions
enter_actions-staa i [] t = refl
enter_actions-staa i (x ∷ xs) t = enter_actions-staa (suc i) xs (enter_action i x t)

copy_actions_lem :
    (table : List ActionPtr) (i : ℕ) (ks : List ℕ) (out : List ActionPtr)
    → copy_actions table i ks out ≡ write_from i (map (read table) ks) out
unfolding copy_actions
copy_actions_lem table i [] out = sym (write_from-nil i out)
copy_actions_lem table i (k ∷ ks) out =
    rw write_from-cons (copy_actions_lem table (suc i) ks (set out i (read table k)))

staa_entry_lem :
    (table : List ActionPtr) (s : StaaInit)
    → s.allocated ≡ length s.action_indices
    → some (staa_entry table s) ≡ waits_for table s
unfolding staa_entry
staa_entry_lem table s h =
    rw (copy_actions_lem table 0 s.action_indices (replicate s.allocated none)) (
      rw
        (write_all (map (read table) s.action_indices) (replicate s.allocated none)
          (length-replicate s.allocated none ∙ h ∙ sym (length-map (read table) s.action_indices)))
        refl)

staa_entries_lem :
    (n : ℕ) (ss : List StaaInit) (t : Triggers)
    → All IsSizedEntry ss
    → (staa_entries n ss t).staa_lst ≡ write_from n (map (waits_for t.action_table) ss) t.staa_lst
unfolding staa_entries
staa_entries_lem n [] t h = sym (write_from-nil n t.staa_lst)
staa_entries_lem n (s ∷ ss) t h =
    rw (write_from-cons, ← staa_entry_lem t.action_table s h.0.room)
      (staa_entries_lem (suc n) ss
        (record t { staa_lst = set t.staa_lst n (some (staa_entry t.action_table s)) }) h.1)

staa_entries-table :
    (n : ℕ) (ss : List StaaInit) (t : Triggers)
    → (staa_entries n ss t).action_table ≡ t.action_table
unfolding staa_entries
staa_entries-table n [] t = refl
staa_entries-table n (s ∷ ss) t =
    staa_entries-table (suc n) ss
      (record t { staa_lst = set t.staa_lst n (some (staa_entry t.action_table s)) })

staa_entries-delays :
    (n : ℕ) (ss : List StaaInit) (t : Triggers)
    → (staa_entries n ss t).action_delay_table ≡ t.action_delay_table
unfolding staa_entries
staa_entries-delays n [] t = refl
staa_entries-delays n (s ∷ ss) t =
    staa_entries-delays (suc n) ss
      (record t { staa_lst = set t.staa_lst n (some (staa_entry t.action_table s)) })

staa_entries-sources :
    (n : ℕ) (ss : List StaaInit) (t : Triggers) → (staa_entries n ss t).source_ids ≡ t.source_ids
unfolding staa_entries
staa_entries-sources n [] t = refl
staa_entries-sources n (s ∷ ss) t =
    staa_entries-sources (suc n) ss
      (record t { staa_lst = set t.staa_lst n (some (staa_entry t.action_table s)) })

pub record IsInitialized (p : Preamble) (t : Triggers) : Type 0 where
  pub delays : t.action_delay_table ≡ replicate p.action_table_size never
  pub table : t.action_table ≡ action_ptrs p
  pub sources : t.source_ids ≡ map (λ a. (a.self, a.source_id)) p.network_actions
  pub waits : t.staa_lst ≡ map (waits_for (action_ptrs p)) p.staa_lst

-- For a preamble whose declared sizes fit, `initialize_triggers_for_federate` on the zeroed globals
-- fills every entry of the action table and of the delay table, writes each receiver's source
-- federate, and makes each entry of `staa_lst` wait for the actions that the table then holds.
pub initialize_triggers-IsInitialized :
    (p : Preamble) → IsSized p → IsInitialized p (initialize_triggers_for_federate p (globals p))
unfolding initialize_triggers_for_federate globals
initialize_triggers-IsInitialized p h = record {
  delays = staa_entries-delays 0 p.staa_lst entered ∙ filled_delays;
  table = staa_entries-table 0 p.staa_lst entered ∙ filled;
  sources =
      staa_entries-sources 0 p.staa_lst entered
      ∙ enter_actions-sources 0 p.network_actions (globals p);
  waits =
      staa_entries_lem 0 p.staa_lst entered h.staas
      ∙ (rw (enter_actions-staa 0 p.network_actions (globals p), filled)
          (write_all (map (waits_for (action_ptrs p)) p.staa_lst) (replicate p.staa_lst_length none)
            (length-replicate p.staa_lst_length none
              ∙ h.entries
              ∙ sym (length-map (waits_for (action_ptrs p)) p.staa_lst))));
}
  where
    entered : Triggers
    entered = enter_actions 0 p.network_actions (globals p)

    filled : entered.action_table ≡ action_ptrs p
    filled =
        enter_actions-table 0 p.network_actions (globals p)
        ∙ write_all (action_ptrs p) (replicate p.action_table_length none) (
            length-replicate p.action_table_length none
            ∙ h.table
            ∙ sym h.actions
            ∙ sym (length-map (λ a. some a.self) p.network_actions))

    filled_delays : entered.action_delay_table ≡ replicate p.action_table_size never
    filled_delays =
        enter_actions-delays 0 p.network_actions (globals p)
        ∙ rw h.actions (
            write_all (replicate p.action_table_size never)
              (replicate p.action_delay_table_length (nsec 0))
              (length-replicate p.action_delay_table_length (nsec 0)
                ∙ h.delays
                ∙ sym (length-replicate p.action_table_size never)))
