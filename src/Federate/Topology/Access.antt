-- ===== src/Federate/Topology/Access.antt =====
-- No federate writes or reads past the end of a trigger table.
use lf_autoware.Base.{
  ℕ, ◌<◌, ◌≡◌, refl, Bool, true, ◌&&◌, some, all, all_sound, All-all, and_true, length, get_elem?,
  ltb, ltb→lt, leb, arith,
}
use lf_autoware.Federate.Preamble.{StaaInit, Preamble}
use lf_autoware.Federate.Triggers.{globals, initialize_triggers_for_federate}
use lf_autoware.Federate.Triggers.Checked.{checked_initialize_triggers}
use lf_autoware.Federate.Triggers.Bounds.{IsInside, checked-eq-unchecked}
use lf_autoware.Federate.Table.{federation}
use lf_autoware.Federate.Topology.Shape.{federation-IsSized}

abbrev inside? : ℕ → StaaInit → Bool
inside? size s = leb (length s.action_indices) s.allocated && all (λ k. ltb k size) s.action_indices

inside?_sound : (size : ℕ) (s : StaaInit) → inside? size s ≡ true → IsInside size s
inside?_sound size s h =
    let (a, b) = and_true (leb (length s.action_indices) s.allocated) _ h in
    record {
      room = ground arith;
      indices = All-all (λ k. k < size) (λ k. ltb k size) s.action_indices (λ k. ltb→lt k size) b;
    }

abbrev all_inside? : Preamble → Bool
all_inside? p = all (inside? p.action_table_length) p.staa_lst

-- In every federate of the federation, `initialize_triggers_for_federate` on the zeroed globals makes
-- no access past the end of an array, by the lengths with which `_lf_action_delay_table`,
-- `_lf_action_table` and `staa_lst` are declared and the actions of each entry are allocated: with
-- every index checked it gives the same tables.
pub federation-checked :
    (i : ℕ) (p : Preamble)
    → get_elem? federation i ≡ some p
    → checked_initialize_triggers p (globals p)
      ≡ some (initialize_triggers_for_federate p (globals p))
federation-checked i p e = checked-eq-unchecked p (federation-IsSized i p e) (
    All-all (IsInside p.action_table_length) (inside? p.action_table_length) p.staa_lst
      (inside?_sound p.action_table_length) (all_sound all_inside? federation i p refl e))
