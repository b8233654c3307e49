-- ===== src/Discovery/Tests.antt =====
-- Two nodes, of which one is dead, behind the service "api", and a query for it.
use huddle_cluster.Base.{
  ◌≡◌, refl, true, false, none, some, List, [], ◌∷◌, ◌++◌, arith, All, In, get, assign, has_key,
  has, add_to, discard, length, keep, if◌then◌else◌, str_eq, map,
}
use huddle_cluster.Master.{alive, dead}
use huddle_cluster.Discovery.{
  Node, Text, text, nothing, on_service_up, on_service_down, Registry, enroll, announce,
  alive_nodes_for, sort_nodes, place_node, sync_from_metadata, check_service_health, is_some_node,
}
use huddle_cluster.Discovery.Services.{alive_nodes_for-IsAlive}
use huddle_cluster.Discovery.Transitions.{
  Event, announces, refreshes, step, run, IsTold, run-IsTold, check_service_health-IsRight,
}
use huddle_cluster.Discovery.Dns.{
  Bytes, Address, rdata, Aton, build_dns_response, lower, joined, respond, is_valid_ipv4, name_of,
  service_of, read_labels, handle_dns_query, is_ascii,
}
use huddle_cluster.Discovery.Dns.Names.{encode, IsLabel, read_labels-encode}
use huddle_cluster.Discovery.Dns.Answers.{
  query, read_back, read_back-build, read_back-edns, other_record,
}
use huddle_cluster.Discovery.Dns.Question.{service_of-read_labels, handle_dns_query_lem}

abbrev plain : Text
plain = record {
  normal = λ s. s;
  parts = λ s. s ∷ [];
  is_empty = λ s. str_eq s "";
  before = λ a b. false;
}

abbrev n1 : Node
n1 = record { node_id = "n1"; status = alive; address = "10.0.0.1"; services = text "api" }

abbrev n2 : Node
n2 = record { node_id = "n2"; status = dead; address = "10.0.0.2"; services = nothing }

abbrev view : List Node
view = n1 ∷ n2 ∷ []

abbrev empty : Registry
empty = record { registry = []; services_up = []; notices = [] }

abbrev announced : Registry
announced = record empty { registry = ("api", "n1" ∷ "n2" ∷ []) ∷ [] }

abbrev events : List Event
events = announces "n2" "api" ∷ refreshes view ∷ refreshes (n2 ∷ []) ∷ []

run_notices : (run plain events empty).notices ≡ on_service_up "api" ∷ on_service_down "api" ∷ []
unfolding run step announce enroll sync_from_metadata check_service_health get assign has add_to
    discard sort_nodes place_node
run_notices = refl

run-IsTold_example : IsTold "api" (run plain events empty)
unfolding has
run-IsTold_example = run-IsTold plain "api" events empty (tt, refl)

check_service_health-IsRight_example :
    has "api" (check_service_health plain view announced).services_up
    ≡ is_some_node (alive_nodes_for plain view "api" (check_service_health plain view announced))
unfolding has_key
check_service_health-IsRight_example = check_service_health-IsRight plain view "api" announced refl

alive_nodes_for-IsAlive_example :
    All
      (λ n. In n view × (n.status ≡ alive) × (has n.node_id ("n1" ∷ "n2" ∷ []) ≡ true))
      (alive_nodes_for plain view "api" announced)
unfolding get
alive_nodes_for-IsAlive_example = (alive_nodes_for-IsAlive plain view "api" announced).0

-- The labels "api", "x" and "y", with a capital.
abbrev api : Bytes
api = 65 ∷ 112 ∷ 105 ∷ []

abbrev labels : List Bytes
labels = api ∷ (120 ∷ []) ∷ (121 ∷ []) ∷ []

labels-IsLabel : All IsLabel labels
unfolding is_ascii
labels-IsLabel = ((omega arith, refl), ((omega arith, refl), ((omega arith, refl), tt)))

abbrev aton : Aton
aton ip =
    if str_eq ip "10.0.0.1"
    then some (record { byte0 = 10; byte1 = 0; byte2 = 0; byte3 = 1 })
    else none

abbrev found : List Address
found = record { byte0 = 10; byte1 = 0; byte2 = 0; byte3 = 1 } ∷ []

abbrev header : Bytes
header = 1 ∷ 0 ∷ 0 ∷ 1 ∷ 0 ∷ 0 ∷ 0 ∷ 0 ∷ 0 ∷ 0 ∷ []

abbrev tail : Bytes
tail = 0 ∷ 1 ∷ 0 ∷ 1 ∷ []

read_labels-encode_example :
    read_labels (length (encode labels ++ tail)) (encode labels ++ tail) ≡ some labels
read_labels-encode_example = read_labels-encode labels tail labels-IsLabel

service_of-read_labels_example :
    service_of
      (joined ((120 ∷ []) ∷ (121 ∷ []) ∷ []))
      (name_of (read_labels (length (encode labels ++ tail)) (encode labels ++ tail)))
    ≡ some (lower api)
service_of-read_labels_example =
    service_of-read_labels api (120 ∷ []) ((121 ∷ []) ∷ []) tail labels-IsLabel

handle_dns_query_lem_example :
    handle_dns_query aton
      (joined ((120 ∷ []) ∷ (121 ∷ []) ∷ []))
      (λ s. "10.0.0.1" ∷ [])
      (query 7 8 header labels tail)
    ≡ respond aton (query 7 8 header labels tail) (keep (is_valid_ipv4 aton) ("10.0.0.1" ∷ []))
handle_dns_query_lem_example =
    handle_dns_query_lem aton (λ s. "10.0.0.1" ∷ []) 7 8 header api (120 ∷ []) ((121 ∷ []) ∷ [])
      tail refl labels-IsLabel

read_back-build_example :
    read_back (build_dns_response aton (query 7 8 header labels tail) ("10.0.0.1" ∷ []))
    ≡ some (map rdata found)
read_back-build_example =
    read_back-build aton ("10.0.0.1" ∷ []) found 7 8 header labels 0 1 0 1 (refl, tt) refl
      labels-IsLabel (omega arith)

read_back-edns_example :
    read_back (
      build_dns_response aton
        (query 7 8 header labels
          (0 ∷ 1 ∷ 0 ∷ 1 ∷ other_record (0 ∷ 41 ∷ 16 ∷ 0 ∷ 0 ∷ 0 ∷ 0 ∷ 0 ∷ []) []))
        ("10.0.0.1" ∷ []))
    ≡ some []
read_back-edns_example =
    read_back-edns aton "10.0.0.1" [] found 7 8 header labels 0 1 0 1 0 41 16 0 0 0 0 0 []
      (refl, tt) refl labels-IsLabel (omega arith) (omega arith)
