-- ===== src/Examples/Cached.antt =====
-- The theorems on the registry's client and on configuration files at concrete inputs.
use xrpc.Base.{
  ◌↔◌, ◌≡◌, refl, ap, true, false, none, some, List, [], ◌∷◌, ◌++◌, Bytes, codes, ok, All, inr,
}
use xrpc.Base.Int.{pos}
use xrpc.Base.Decimal.{to_string, digits, find_byte}
use xrpc.Server.{instance_path, instance_data}
use xrpc.Base.{text_eq}
use xrpc.Base.Dict.{Dict, lookup, insert}
use xrpc.Registry.Cache.{service_of, until_slash, contains}
use xrpc.Registry.Cache.Invariant.{IsCache, empty-IsCache}
use xrpc.Registry.ZooKeeper.{zok}
use xrpc.Registry.Session.{Client, ◌>>=◌, ◌>>◌, zoo, lift, set_cache, set_watchers}
use xrpc.Registry.Nodes.{
  register, discover, delete, require_connected, require_started, ensure_parent, find_last_byte,
  check, write_node, remember, delete_node, forget,
}
use xrpc.Registry.Events.{Event, NodeEvent}
use xrpc.Registry.Steps.{Op, run}
use xrpc.Registry.Steps.Children.{IsName}
use xrpc.Registry.Steps.Reach.{IsProper, run-IsCache}
use xrpc.Registry.Discovery.{discover-register}
use xrpc.Registry.Deletion.{Forgot, delete-Forgot}
use xrpc.Channel.{get_service_address}
use xrpc.Registry.Nodes.{find_instances_by_method}
use xrpc.Registry.Session.{pure}
use xrpc.Registry.Cache.{cache_put, put_instance, instances_of}
use xrpc.Registry.Nodes.{discover_service, matching, offers, has_text, base_name}
use xrpc.Registry.Finding.{zookeeper_client, Finds, register-Finds}
use xrpc.Config.{
  find_first_not_blank, find_last_not_blank, parse_line, get_lines, split_entry, trim, load, get,
}
use xrpc.Config.Lines.{IsKey, parse_line_lem}
use xrpc.Config.Loading.{sets, get-load}
use xrpc.Registry.View.{put}
use xrpc.Registry.Matching.{Serves, matching-exact}
use xrpc.Registry.View.History.{
  Act, discovered, History, stop, register_call, discover_call, replay, discover-replay,
}
use xrpc.Examples.Store.{store, store-Unique, client}

abbrev name : Bytes
name = codes "UserService"

abbrev path : Bytes
path = codes "/UserService/0.0.0.0:8080"

abbrev text : Bytes
text = codes "methods=Login,Register"

registered : (register path text true client).1 ≡ ok tt
unfolding register require_connected ensure_parent find_last_byte check write_node remember ◌>>◌
    ◌>>=◌ zoo lift set_cache lookup insert text_eq service_of
registered = refl

discover-register_example :
    discover path (register path text true client).0 ≡ ((register path text true client).0, ok text)
discover-register_example = discover-register path text true client registered

-- The instance is cached and watched.
abbrev holding : Client store
holding = record client {
  service_cache = (name, (path, text) ∷ []) ∷ [];
  watchers = (path, 7) ∷ [];
  zoo = (path, text) ∷ [];
}

deleted : (delete path holding).1 ≡ ok tt
unfolding delete require_started check delete_node forget ◌>>◌ ◌>>=◌ zoo lift set_cache set_watchers
    lookup text_eq service_of
deleted = refl

found : (store.exists holding.zoo path).1.0 ≡ zok
unfolding lookup text_eq
found = refl

delete-Forgot_example :
    (s : Bytes) × (service_of path ≡ ok s) × Forgot s path holding (delete path holding).0
delete-Forgot_example = delete-Forgot path holding deleted found

name-IsName : IsName name
unfolding until_slash
name-IsName = refl

login-listed : contains (codes "Login") (codes "Login" ∷ codes "Register" ∷ []) ≡ true
unfolding contains text_eq
login-listed = refl

abbrev ip : Bytes
ip = codes "0.0.0.0"

ip-plain : find_last_byte b'/' ip ≡ none
unfolding find_last_byte
ip-plain = refl

instance_registered :
    (register
      (instance_path name ip (pos 8080))
      (instance_data (codes "Login" ∷ codes "Register" ∷ []))
      true
      client).1
    ≡ ok tt
unfolding register require_connected ensure_parent find_last_byte check write_node remember ◌>>◌
    ◌>>=◌ zoo lift set_cache lookup insert text_eq service_of instance_path to_string digits
instance_registered = refl

register-Finds_example :
    Finds name
      (codes "Login")
      (ip ++ b':' ∷ to_string (pos 8080))
      (register
        (instance_path name ip (pos 8080))
        (instance_data (codes "Login" ∷ codes "Register" ∷ []))
        true
        client).0
register-Finds_example =
    register-Finds name ip (pos 8080) (codes "Login" ∷ codes "Register" ∷ []) (codes "Login") true
      client login-listed name-IsName ip-plain instance_registered

-- A node appears, is watched, changes and goes, between rounds of the heartbeat.
abbrev steps : List (Op store)
steps =
    Op.register_op path text true
    ∷ Op.watch_op path 7
    ∷ Op.find_op name (codes "Login")
    ∷ Op.others_op ((path, codes "methods=Login") ∷ (codes "/UserService/b:1", text) ∷ [])
    ∷ Op.event_op (Event.node_event NodeEvent.changed (some path))
    ∷ Op.heartbeat_op name
    ∷ Op.discover_op (codes "/UserService/b:1")
    ∷ Op.event_op (Event.node_event NodeEvent.child (some path))
    ∷ Op.find_op name (codes "Login")
    ∷ Op.delete_op path
    ∷ Op.stop_op
    ∷ Op.start_op
    ∷ []

steps-IsProper : All IsProper steps
steps-IsProper =
    (tt, (tt, (name-IsName, (tt, (tt, (tt, (tt, (tt, (name-IsName, (tt, (tt, (tt, tt))))))))))))

run-IsCache_example : IsCache (run steps client).service_cache
run-IsCache_example = run-IsCache steps client store-Unique steps-IsProper empty-IsCache

log_level-IsKey : IsKey (codes "log_level")
unfolding find_first_not_blank find_last_not_blank
log_level-IsKey = record {
  bare = (refl, refl);
  no_equals = (refl, (refl, (refl, (refl, (refl, (refl, (refl, (refl, (refl, tt)))))))));
  no_comment = refl;
}

parse_line_lem_example :
    parse_line (
      codes "  "
      ++ (((codes "log_level" ++ codes " ") ++ b'=' ∷ (codes " " ++ codes "a=b c")) ++ codes "\t"))
    ≡ some (codes "log_level", codes "a=b c")
unfolding find_first_not_blank find_last_not_blank
parse_line_lem_example =
    parse_line_lem (codes "  ") (codes "log_level") (codes " ") (codes " ") (codes "a=b c")
      (codes "\t") (refl, (refl, tt)) log_level-IsKey (refl, tt) (refl, tt) (inr (refl, refl))
      (refl, tt)

abbrev before : List Bytes
before = codes "log_level=info" ∷ codes "# levels" ∷ []

abbrev line : Bytes
line = codes "log_level = debug"

abbrev after : List Bytes
after = [] ∷ codes "log_file=xrpc.log" ∷ []

abbrev file_text : Bytes
file_text = codes "log_level=info\n# levels\nlog_level = debug\n\nlog_file=xrpc.log"

line_sets : parse_line line ≡ some (codes "log_level", codes "debug")
unfolding parse_line find_first_not_blank find_last_not_blank split_entry trim find_byte
line_sets = refl

lines_split : get_lines file_text ≡ before ++ line ∷ after
unfolding get_lines
lines_split = refl

later_lines : All (λ l. sets (codes "log_level") (parse_line l) ≡ false) after
unfolding parse_line find_first_not_blank find_last_not_blank split_entry trim find_byte text_eq
later_lines = (refl, (refl, tt))

get-load_example :
    (loaded : Dict Bytes) × (load (codes "xrpc.conf") (some file_text) [] ≡ ok loaded)
    × (get (codes "log_level") (codes "info") loaded ≡ codes "debug")
get-load_example =
    get-load (codes "xrpc.conf") file_text (codes "log_level") (codes "debug") (codes "info") line
      before after [] lines_split line_sets later_lines

-- A channel that shares the client finds the server that was registered.
address_found :
    (get_service_address
      (zookeeper_client store)
      (register path text true client).0
      name
      (codes "Login")).1
    ≡ ok (codes "0.0.0.0:8080")
unfolding register require_connected ensure_parent find_last_byte check write_node remember ◌>>◌
    ◌>>=◌ zoo lift set_cache lookup insert text_eq service_of get_service_address discover_service
    cache_put until_slash pure matching put_instance instances_of offers has_text find_byte
    base_name find_instances_by_method
address_found = refl

-- The client after its Register and a Discover of the same path.
abbrev looked_up : Client store
looked_up = (discover path (register path text true client).0).0

registered_history : History (Act.registered path text ∷ discovered path text ∷ []) client looked_up
registered_history = register_call path text true _ client looked_up registered (
    discover_call path text [] _ looked_up
      (ap (λ r. r.1) (discover-register path text true client registered)) (stop _))

path-placed : service_of path ≡ ok name
unfolding service_of until_slash
path-placed = refl

discover-replay_example : discover path looked_up ≡ (looked_up, ok text)
unfolding replay put text_eq
discover-replay_example = discover-replay name path registered_history path-placed

-- A server that offers LoginAll is found for Login.
matching-exact_example :
    (contains
        (codes "a:1")
        (matching (codes "Login") ((codes "/S/a:1", codes "methods=LoginAll") ∷ []))
      ≡ true)
    ↔ Serves (codes "Login") (codes "a:1") ((codes "/S/a:1", codes "methods=LoginAll") ∷ [])
matching-exact_example =
    matching-exact (codes "Login") (codes "a:1") ((codes "/S/a:1", codes "methods=LoginAll") ∷ [])
