-- ===== src/Adapter/Pool.antt =====
-- grpcadapter/pool.go: the pool of connections. A controller is a number, and `controllers` is the
-- memory behind these pointers. The wrapped connection's own state is left out but for the calls of
-- its `Close`.
pub mod Owners
use grpcbridge.Base.{
  ℕ, ◌+◌, ◌==◌, if◌then◌else◌, List, [], ◌∷◌, ◌++◌, Option, none, some, Bool, true, false, Bytes,
}
use grpcbridge.Base.Maps.{Map, put, delete, empty}

pub record Controller (Conn : Type 0) : Type 0 where
  pub target : Bytes
  pub client : Option Conn
  pub closed : Bool

pub record Pool (Conn : Type 0) : Type 0 where
  pub conns : Map ℕ
  pub controllers : ℕ → Controller Conn
  pub next : ℕ
  pub closed_clients : List Conn

pub data NewResult : Type 0 where
  controller : ℕ → NewResult
  already_dialed : NewResult
  dial_failed : NewResult

abbrev pub write_at :
    {Conn : Type 0} → ℕ → Controller Conn → (ℕ → Controller Conn) → ℕ → Controller Conn
write_at i c m j = if j == i then c else m j

module _ {Conn : Type 0} where
  -- `new(AdaptedClientPoolController)`
  abbrev pub blank : Controller Conn
  blank = record { target = []; client = none; closed = false }

  abbrev pub new_pool : Pool Conn
  new_pool = record { conns = empty; controllers = λ i. blank; next = 0; closed_clients = [] }

  -- `LoadOrStore` of an absent target, with the new controller.
  unfoldable pub reserve : Bytes → Pool Conn → Pool Conn
  reserve target p = record p {
    conns = put target p.next p.conns;
    controllers = write_at p.next blank p.controllers;
    next = p.next + 1;
  }

  -- What `New` does to its controller once it has the connection.
  unfoldable pub attach : ℕ → Bytes → Conn → Pool Conn → Pool Conn
  attach i target conn p = record p {
    controllers =
        write_at i (record (p.controllers i) { target = target; client = some conn }) p.controllers;
  }

  -- The rest of `New` behind `LoadOrStore`, with what NewClientFunc returned.
  unfoldable pub finish_new : ℕ → Bytes → Option Conn → Pool Conn → NewResult × Pool Conn
  finish_new i target none p = (dial_failed, p)
  finish_new i target (some conn) p = (controller i, attach i target conn p)

  new_from : Bytes → Option Conn → Pool Conn → Option ℕ → NewResult × Pool Conn
  new_from target dialed p none = finish_new p.next target dialed (reserve target p)
  new_from target dialed p (some i) = (already_dialed, p)

  -- `New` without another call between its steps, for a NewClientFunc and the options.
  unfoldable pub new_client :
      {Opt : Type 0}
      → (Bytes → List Opt → Option Conn)
      → List Opt
      → Bytes
      → Bytes
      → List Opt
      → Pool Conn
      → NewResult × Pool Conn
  unfolding new_from
  new_client new_client_func default_opts target dial_target opts p =
      new_from target (new_client_func dial_target (default_opts ++ opts)) p (p.conns target)

  get_at : Pool Conn → Option ℕ → Option (Option Conn)
  get_at p none = none
  get_at p (some i) = some (p.controllers i).client

  -- `some none` is the nil client with `true`.
  unfoldable pub get : Pool Conn → Bytes → Option (Option Conn)
  unfolding get_at
  get p target = get_at p (p.conns target)

  close_client : ℕ → Pool Conn → Option Conn → Option (Pool Conn)
  close_client i p none = none
  close_client i p (some conn) = some (record p {
    conns = delete (p.controllers i).target p.conns;
    controllers = write_at i (record (p.controllers i) { closed = true }) p.controllers;
    closed_clients = p.closed_clients ++ conn ∷ [];
  })

  -- `Close`; `none` is a panic.
  unfoldable pub close_controller : ℕ → Pool Conn → Option (Pool Conn)
  unfolding close_client
  close_controller i p =
      if (p.controllers i).closed then none else close_client i p (p.controllers i).client
