-- ===== src/Slots.antt =====
-- The output slots of the wrapped nodes: each node has, for each of its outputs, the two members
-- `lf_output_<name>` and `lf_<name>_is_set`, which its methods set and the reactions
-- (lf-src/*/*_main.lf) forward and clear.
use lf_autoware.Base.{◌≡◌, Bool, true, false, Option, none, some, if◌then◌else◌, arith}

pub record Slot (A : Type 0) : Type 0 where
  pub value : A
  pub is_set : Bool

-- if (is_set) { lf_set(port, value); is_set = false; }
unfoldable pub forward : {A : Type 0} → Slot A → Option A × Slot A
forward s = if s.is_set then (some s.value, record s { is_set = false }) else (none, s)

abbrev pub raise : {A : Type 0} → Option A → Slot A → Slot A
raise none s = s
raise (some a) s = record { value = a; is_set = true }

-- A message that waits to be forwarded.
abbrev pub waiting : {A : Type 0} → Slot A → Option A
waiting s = if s.is_set then some s.value else none

-- The newer of two messages, if there is one.
abbrev pub newest : {A : Type 0} → Option A → Option A → Option A
newest (some a) o = some a
newest none o = o

pub newest-none : {A : Type 0} (o : Option A) → newest o none ≡ o
newest-none o = ground arith

-- A slot that is raised and then forwarded gives the newest message, and after that only what is
-- raised later waits in it.
pub forward-raise :
    {A : Type 0} (o o' : Option A) (s : Slot A)
    → ((forward (raise o s)).0 ≡ newest o (waiting s))
      × (waiting (raise o' (forward (raise o s)).1) ≡ o')
unfolding forward
forward-raise o o' s = ground arith
