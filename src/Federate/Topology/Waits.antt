-- ===== src/Federate/Topology/Waits.antt =====
-- No entry of `staa_lst` waits for a null action.
use lf_autoware.Base.{
  ℕ, ◌≡◌, Bool, true, false, ◌&&◌, Option, none, some, map, all, all_sound, length, get_elem?, ◌==◌,
  refl, ap, sym, ◌∙◌,
}
use lf_autoware.Federate.Preamble.{Preamble}
use lf_autoware.Federate.Triggers.{ActionPtr, Staa, globals, initialize_triggers_for_federate}
use lf_autoware.Federate.Triggers.Tables.{
  action_ptrs, waits_for, length-map, initialize_triggers-IsInitialized,
}
use lf_autoware.Federate.Table.{federation}
use lf_autoware.Federate.Topology.Shape.{federation-IsSized}

abbrev pub is_set : ActionPtr → Bool
is_set none = false
is_set (some a) = true

-- The entry is allocated, has as many actions as it says, and none of them is null.
abbrev pub waits_for_actions : Option Staa → Bool
waits_for_actions none = false
waits_for_actions (some s) = (s.num_actions == length s.actions) && all is_set s.actions

abbrev all_wait : Preamble → Bool
all_wait p = all waits_for_actions (map (waits_for (action_ptrs p)) p.staa_lst)

federation_waits : all all_wait federation ≡ true
federation_waits = refl

-- In every federate of the federation, after `initialize_triggers_for_federate` on the zeroed
-- globals, `staa_lst` has as many entries as `staa_lst_size` says. Each of them is allocated, with an
-- array of just as many actions as its `num_actions` says, and none of these is null.
pub initialize_triggers_waits :
    (i : ℕ) (p : Preamble)
    → get_elem? federation i ≡ some p
    → (length (initialize_triggers_for_federate p (globals p)).staa_lst ≡ p.staa_lst_size)
      × (all waits_for_actions (initialize_triggers_for_federate p (globals p)).staa_lst ≡ true)
initialize_triggers_waits i p e =
    let sized = federation-IsSized i p e in
    let waits = (initialize_triggers-IsInitialized p sized).waits in
    (
      ap length waits
          ∙ length-map (waits_for (action_ptrs p)) p.staa_lst
          ∙ sym sized.entries
          ∙ sym sized.size,
      rw waits (all_sound all_wait federation i p federation_waits e),
    )
