-- ===== src/Federate/Table.antt =====
-- The values of the 46 generated preambles, one definition for each file
-- lf-src/fed-gen/AutowareFederated/src/include/_federate__<name>_preamble.h, and the federation
-- that they make up, in the order of the list of names that every federate is compiled with.
use lf_autoware.Base.{ℕ, String, List, [], ◌∷◌}
use lf_autoware.Federate.Runtime.{create_server, connect_to_federate, thread_create}
use lf_autoware.Federate.Preamble.{NetworkAction, Preamble}

-- The text of a preamble with no connection to another federate.
abbrev isolated : ℕ → Preamble
isolated id = record {
  fed_id = id;
  inbound = 0;
  outbound = 0;
  connections = [];
  action_delay_table_length = 0;
  action_table_length = 0;
  action_table_size = 0;
  zero_delay_cycle_action_table_size = 0;
  num_network_input_reactions = 0;
  num_port_absent_reactions = 0;
  network_actions = [];
  staa_lst_length = 0;
  staa_lst_size = 0;
  staa_lst = [];
  num_upstream = 0;
  num_downstream = 0;
}

abbrev action : String → ℕ → NetworkAction
action self source = record { self = self; source_id = source }

abbrev pub cbf : Preamble
cbf = isolated 0

abbrev pub imu : Preamble
imu = isolated 1

abbrev pub vvc : Preamble
vvc = isolated 2

abbrev pub ndt : Preamble
ndt = isolated 3

abbrev pub gyro : Preamble
gyro = isolated 4

abbrev pub ekf : Preamble
ekf = isolated 5

abbrev pub pcm : Preamble
pcm = isolated 6

abbrev pub l2m : Preamble
l2m = isolated 7

abbrev pub gs : Preamble
gs = isolated 8

abbrev pub lcp : Preamble
lcp = isolated 9

abbrev pub ec : Preamble
ec = isolated 10

abbrev pub pmf : Preamble
pmf = isolated 11

abbrev pub dbt : Preamble
dbt = isolated 12

abbrev pub ov : Preamble
ov = isolated 13

abbrev pub of : Preamble
of = isolated 14

abbrev pub clf : Preamble
clf = isolated 15

abbrev pub mot : Preamble
mot = isolated 16

abbrev pub mbp : Preamble
mbp = isolated 17

abbrev pub ogm : Preamble
ogm = isolated 18

abbrev pub tlmbd : Preamble
tlmbd = isolated 19

abbrev pub tlc : Preamble
tlc = isolated 20

abbrev pub tla : Preamble
tla = isolated 21

abbrev pub tlop : Preamble
tlop = isolated 22

abbrev pub ctle : Preamble
ctle = isolated 23

abbrev pub mp : Preamble
mp = isolated 24

abbrev pub bpp : Preamble
bpp = isolated 25

abbrev pub bvp : Preamble
bvp = isolated 26

abbrev pub ps : Preamble
ps = isolated 27

abbrev pub po : Preamble
po = isolated 28

abbrev pub mvp : Preamble
mvp = isolated 29

abbrev pub soc : Preamble
soc = isolated 30

abbrev pub ss : Preamble
ss = record {
  fed_id = 31;
  inbound = 0;
  outbound = 1;
  connections = connect_to_federate 32 ∷ [];
  action_delay_table_length = 0;
  action_table_length = 0;
  action_table_size = 0;
  zero_delay_cycle_action_table_size = 0;
  num_network_input_reactions = 0;
  num_port_absent_reactions = 0;
  network_actions = [];
  staa_lst_length = 0;
  staa_lst_size = 0;
  staa_lst = [];
  num_upstream = 0;
  num_downstream = 0;
}

abbrev pub vs : Preamble
vs = record {
  fed_id = 32;
  inbound = 1;
  outbound = 0;
  connections = create_server 0 ∷ thread_create ∷ [];
  action_delay_table_length = 1;
  action_table_length = 1;
  action_table_size = 1;
  zero_delay_cycle_action_table_size = 0;
  num_network_input_reactions = 1;
  num_port_absent_reactions = 0;
  network_actions = action "federate__vs_nr_federate__vs_self" 31 ∷ [];
  staa_lst_length = 1;
  staa_lst_size = 1;
  staa_lst = record { staa = 0; num_actions = 1; allocated = 1; action_indices = 0 ∷ [] } ∷ [];
  num_upstream = 0;
  num_downstream = 0;
}

abbrev pub fp : Preamble
fp = isolated 33

abbrev pub cg : Preamble
cg = isolated 34

abbrev pub pv : Preamble
pv = isolated 35

abbrev pub evls : Preamble
evls = isolated 36

abbrev pub tf : Preamble
tf = isolated 37

abbrev pub sd : Preamble
sd = isolated 38

abbrev pub vcg : Preamble
vcg = record {
  fed_id = 39;
  inbound = 0;
  outbound = 1;
  connections = connect_to_federate 45 ∷ [];
  action_delay_table_length = 0;
  action_table_length = 0;
  action_table_size = 0;
  zero_delay_cycle_action_table_size = 0;
  num_network_input_reactions = 0;
  num_port_absent_reactions = 0;
  network_actions = [];
  staa_lst_length = 0;
  staa_lst_size = 0;
  staa_lst = [];
  num_upstream = 0;
  num_downstream = 0;
}

abbrev pub omtm : Preamble
omtm = isolated 40

abbrev pub ldc : Preamble
ldc = isolated 41

abbrev pub cv : Preamble
cv = isolated 42

abbrev pub aeb : Preamble
aeb = isolated 43

abbrev pub cd : Preamble
cd = isolated 44

abbrev pub bridge : Preamble
bridge = record {
  fed_id = 45;
  inbound = 1;
  outbound = 0;
  connections = create_server 0 ∷ thread_create ∷ [];
  action_delay_table_length = 4;
  action_table_length = 4;
  action_table_size = 4;
  zero_delay_cycle_action_table_size = 0;
  num_network_input_reactions = 4;
  num_port_absent_reactions = 0;
  network_actions =
      action "federate__bridge_nr_federate__bridge_self" 39
      ∷ action "federate__bridge_nr_federate__bridge_0_self" 39
      ∷ action "federate__bridge_nr_federate__bridge_1_self" 39
      ∷ action "federate__bridge_nr_federate__bridge_2_self" 39
      ∷ [];
  staa_lst_length = 1;
  staa_lst_size = 1;
  staa_lst =
      record { staa = 0; num_actions = 4; allocated = 4; action_indices = 0 ∷ 1 ∷ 2 ∷ 3 ∷ [] } ∷ [];
  num_upstream = 0;
  num_downstream = 0;
}

-- _LF_FEDERATE_NAMES_COMMA_SEPARATED
abbrev pub federate_names : List String
federate_names =
    "federate__cbf" ∷ "federate__imu" ∷ "federate__vvc" ∷ "federate__ndt" ∷ "federate__gyro"
    ∷ "federate__ekf" ∷ "federate__pcm" ∷ "federate__l2m" ∷ "federate__gs" ∷ "federate__lcp"
    ∷ "federate__ec" ∷ "federate__pmf" ∷ "federate__dbt" ∷ "federate__ov" ∷ "federate__of"
    ∷ "federate__clf" ∷ "federate__mot" ∷ "federate__mbp" ∷ "federate__ogm" ∷ "federate__tlmbd"
    ∷ "federate__tlc" ∷ "federate__tla" ∷ "federate__tlop" ∷ "federate__ctle" ∷ "federate__mp"
    ∷ "federate__bpp" ∷ "federate__bvp" ∷ "federate__ps" ∷ "federate__po" ∷ "federate__mvp"
    ∷ "federate__soc" ∷ "federate__ss" ∷ "federate__vs" ∷ "federate__fp" ∷ "federate__cg"
    ∷ "federate__pv" ∷ "federate__evls" ∷ "federate__tf" ∷ "federate__sd" ∷ "federate__vcg"
    ∷ "federate__omtm" ∷ "federate__ldc" ∷ "federate__cv" ∷ "federate__aeb" ∷ "federate__cd"
    ∷ "federate__bridge" ∷ []

abbrev pub federation : List Preamble
federation =
    cbf ∷ imu ∷ vvc ∷ ndt ∷ gyro ∷ ekf ∷ pcm ∷ l2m ∷ gs ∷ lcp ∷ ec ∷ pmf ∷ dbt ∷ ov ∷ of ∷ clf ∷ mot
    ∷ mbp ∷ ogm ∷ tlmbd ∷ tlc ∷ tla ∷ tlop ∷ ctle ∷ mp ∷ bpp ∷ bvp ∷ ps ∷ po ∷ mvp ∷ soc ∷ ss ∷ vs
    ∷ fp ∷ cg ∷ pv ∷ evls ∷ tf ∷ sd ∷ vcg ∷ omtm ∷ ldc ∷ cv ∷ aeb ∷ cd ∷ bridge ∷ []
