-- ===== src/Control/Registry.antt =====
-- internal/control/registry.go: the clients that are connected.
pub mod Disconnects
use reversproxy.Base.{
  ℕ, suc, ◌+◌, Bool, true, false, List, [], ◌∷◌, Option, none, some, if◌then◌else◌, ◌==◌, Str,
  str_eq, Map, lookup, insert, delete, update, values, length,
}

-- `conn` is nil where it is `none`; `has_cancel` is whether there is a cancel function.
pub record Client : Type 0 where
  pub id : Str
  pub name : Str
  pub addr : Str
  pub conn : Option ℕ
  pub has_cancel : Bool

-- The registry, the contexts that were cancelled, by the client's identity, and the closed connections.
pub record Registry : Type 0 where
  pub clients : Map Client
  pub cancelled : List Str
  pub closed : List ℕ

pub new_client_registry : Registry
new_client_registry = record { clients = []; cancelled = []; closed = [] }

-- The identity is a UUID that the caller of the model supplies.
unfoldable pub register : Str → Str → Str → Option ℕ → Bool → Registry → Client × Registry
register id name addr conn has_cancel r =
    let c : Client = record {
      id = id;
      name = name;
      addr = addr;
      conn = conn;
      has_cancel = has_cancel;
    } in
    (c, record r { clients = insert id c r.clients })

unfoldable pub deregister : Str → Registry → Registry
deregister id r = record r { clients = delete id r.clients }

unfoldable pub get_client : Str → Registry → Option Client
get_client id r = lookup id r.clients

-- The cancel function is called and the connection closed, where there is one.
pub stop : Client → Registry → Registry
stop c r = record r {
  cancelled = if c.has_cancel then c.id ∷ r.cancelled else r.cancelled;
  closed = elim c.conn [ none ↦ r.closed | some k ↦ k ∷ r.closed ];
}

pub disconnect : Str → Registry → Bool × Registry
unfolding stop
disconnect id r = elim (lookup id r.clients) [ none ↦ (false, r) | some c ↦ (true, stop c r) ]

pub matches : Str → List Client → List Client
matches name [] = []
matches name (c ∷ cs) = let rest = matches name cs in if str_eq c.name name then c ∷ rest else rest

pub stop_all : List Client → Registry → Registry
unfolding stop
stop_all [] r = r
stop_all (c ∷ cs) r = stop_all cs (stop c r)

pub disconnect_by_name : Str → Registry → ℕ × Registry
unfolding matches stop_all
disconnect_by_name name r =
    let found = matches name (values r.clients) in (length found, stop_all found r)
