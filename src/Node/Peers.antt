-- ===== src/Node/Peers.antt =====
-- `PeerManager` of crates/taron-node/src/peer.rs: who is connected, how many connections an IP
-- address has, and who is banned. Instants are nanoseconds, and the clock is an argument. A
-- broadcast channel is the number it was registered with; `broadcast` returns what it sends.
use taron.Prelude.{
  ℕ, ◌+◌, ◌-◌, ◌%◌, ◌≡◌, refl, ap, Bool, true, false, not, ◌&&◌, ◌||◌, Option, none, some, List, [],
  ◌∷◌, ◌++◌, map, arith, length, ltb, leb, ◌==◌, if◌then◌else◌, ite, is_some, or_else, ℕ_discrete,
}
use taron.Prelude.Words.{Bytes, u32_mod, saturating_sub}
use taron.Prelude.Text.{bytes_dec}
use taron.Prelude.Dict.{Dict, keys, lookup, insert, erase, sum}
pub mod Limits

-- An address by its octets: 4 for version 4, 16 for version 6.
abbrev pub IpAddr : Type 0
IpAddr = Bytes

-- The IP address and the port.
abbrev pub SocketAddr : Type 0
SocketAddr = IpAddr × ℕ

-- One decided equation after the other.
pair_dec :
    {a b : Bytes} {p q : ℕ} → Dec (a ≡ b) → Dec (p ≡ q) → Dec (◌≡◌ {A = SocketAddr} (a, p) (b, q))
pair_dec (yes e) (yes e') = yes (ground arith)
pair_dec (yes e) (no n) = no (λ h. n (ap (λ (x : SocketAddr). x.1) h))
pair_dec (no n) d = no (λ h. n (ap (λ (x : SocketAddr). x.0) h))

unfoldable pub addr_dec : Discrete SocketAddr
unfolding pair_dec
addr_dec (a, p) (b, q) = pair_dec (bytes_dec a b) (ℕ_discrete p q)

abbrev pub max_outbound : ℕ
max_outbound = 16

abbrev pub max_inbound : ℕ
max_inbound = 1024

abbrev pub max_connections_per_ip : ℕ
max_connections_per_ip = 2

-- 3,600 seconds
abbrev pub ban_duration : ℕ
ban_duration = 3_600_000_000_000

abbrev pub max_conn_rate_per_minute : ℕ
max_conn_rate_per_minute = 10

-- 60 seconds
abbrev pub rate_window : ℕ
rate_window = 60_000_000_000

pub data PeerDirection : Type 0 where
  inbound outbound : PeerDirection

-- The score is an `i32`, held as the word of its bits.
pub record PeerInfo : Type 0 where
  pub addr : SocketAddr
  pub direction : PeerDirection
  pub connected_at : ℕ
  pub version : ℕ
  pub user_agent : Bytes
  pub last_seen : ℕ
  pub score : ℕ
  pub broadcast_tx : Option ℕ

pub record PeerManager : Type 0 where
  pub peers : Dict SocketAddr PeerInfo
  pub connections_per_ip : Dict IpAddr ℕ
  pub banned : Dict IpAddr ℕ
  pub connection_attempts : Dict IpAddr (List ℕ)

-- `PeerManager::new`
unfoldable pub new_peers : PeerManager
new_peers = record { peers = []; connections_per_ip = []; banned = []; connection_attempts = [] }

unfoldable pub take_broadcast_tx : PeerInfo → Option ℕ × PeerInfo
take_broadcast_tx p = (p.broadcast_tx, record p { broadcast_tx = none })

-- The change of an entry that `get_mut` finds.
unfoldable pub update_peer : SocketAddr → (PeerInfo → PeerInfo) → PeerManager → PeerManager
update_peer addr f m = elim (lookup addr_dec addr m.peers) [
  | none ↦ m
  | some p ↦ record m { peers = insert addr_dec addr (f p) m.peers }
]

-- A ban that has expired is removed.
unfoldable pub is_banned : ℕ → IpAddr → PeerManager → Bool × PeerManager
is_banned now ip m = elim (lookup bytes_dec ip m.banned) [
  | none ↦ (false, m)
  | some banned_at ↦
      if ltb (saturating_sub now banned_at) ban_duration
      then (true, m)
      else (false, record m { banned = erase bytes_dec ip m.banned })
]

-- `retain` with the test on the age
unfoldable pub recent_attempts : ℕ → List ℕ → List ℕ
recent_attempts now [] = []
recent_attempts now (t ∷ ts) =
    let rest = recent_attempts now ts in
    if ltb (saturating_sub now t) rate_window then t ∷ rest else rest

-- `true`: the attempt is within the rate.
unfoldable pub track_connection_attempt : ℕ → IpAddr → PeerManager → Bool × PeerManager
track_connection_attempt now ip m =
    let earlier = or_else (lookup bytes_dec ip m.connection_attempts) [] in
    let attempts = recent_attempts now earlier ++ (now ∷ []) in
    let tracked = record m {
      connection_attempts = insert bytes_dec ip attempts m.connection_attempts;
    } in
    if ltb max_conn_rate_per_minute (length attempts)
    then (false, record tracked { banned = insert bytes_dec ip now m.banned })
    else (true, tracked)

-- `a - b` on `i32`
abbrev pub sub_i32 : ℕ → ℕ → ℕ
sub_i32 a b = (a + u32_mod - b) % u32_mod

-- `a < b` on `i32`: the words are compared with the sign bit turned over.
abbrev pub lt_i32 : ℕ → ℕ → Bool
lt_i32 a b = ltb ((a + 0x8000_0000) % u32_mod) ((b + 0x8000_0000) % u32_mod)

-- -100
abbrev pub score_ban_threshold : ℕ
score_ban_threshold = u32_mod - 100

unfoldable pub penalize : ℕ → SocketAddr → ℕ → PeerManager → Bool × PeerManager
penalize now addr points m = elim (lookup addr_dec addr m.peers) [
  | none ↦ (false, m)
  | some p ↦
      let score = sub_i32 p.score points in
      let scored = record m { peers = insert addr_dec addr (record p { score = score }) m.peers } in
      if lt_i32 score score_ban_threshold
      then (true, record scored { banned = insert bytes_dec addr.0 now m.banned })
      else (false, scored)
]

unfoldable pub count : PeerManager → ℕ
count m = length m.peers

abbrev pub is_inbound : PeerInfo → ℕ
is_inbound p = elim p.direction [ inbound ↦ 1 | outbound ↦ 0 ]

abbrev pub is_outbound : PeerInfo → ℕ
is_outbound p = elim p.direction [ inbound ↦ 0 | outbound ↦ 1 ]

unfoldable pub inbound_count : PeerManager → ℕ
inbound_count m = sum is_inbound m.peers

unfoldable pub outbound_count : PeerManager → ℕ
outbound_count m = sum is_outbound m.peers

unfoldable pub can_accept : PeerDirection → PeerManager → Bool
can_accept inbound m = ltb (inbound_count m) max_inbound
can_accept outbound m = ltb (outbound_count m) max_outbound

unfoldable pub is_connected : SocketAddr → PeerManager → Bool
is_connected addr m = is_some (lookup addr_dec addr m.peers)

abbrev pub connections : IpAddr → PeerManager → ℕ
connections ip m = or_else (lookup bytes_dec ip m.connections_per_ip) 0

abbrev pub new_peer_info : ℕ → SocketAddr → PeerDirection → PeerInfo
new_peer_info now addr direction = record {
  addr = addr;
  direction = direction;
  connected_at = now;
  version = 0;
  user_agent = [];
  last_seen = now;
  score = 0;
  broadcast_tx = none;
}

unfoldable pub add_peer : ℕ → SocketAddr → PeerDirection → PeerManager → Bool × PeerManager
add_peer now addr direction m =
    let (ban, m) = is_banned now addr.0 m in
    if ban
    then (false, m)
    else if leb max_connections_per_ip (connections addr.0 m)
    then (false, m)
    else if is_connected addr m || not (can_accept direction m)
    then (false, m)
    else (
      true,
      record m {
        peers = insert addr_dec addr (new_peer_info now addr direction) m.peers;
        connections_per_ip =
            insert bytes_dec addr.0 (connections addr.0 m + 1) m.connections_per_ip;
      },
    )

unfoldable pub update_hello : ℕ → SocketAddr → ℕ → Bytes → PeerManager → PeerManager
update_hello now addr version user_agent =
    update_peer addr (λ p. record p { version = version; user_agent = user_agent; last_seen = now })

unfoldable pub touch : ℕ → SocketAddr → PeerManager → PeerManager
touch now addr = update_peer addr (λ p. record p { last_seen = now })

unfoldable pub remove_peer : SocketAddr → PeerManager → PeerManager
remove_peer addr m = elim (lookup addr_dec addr m.peers) [
  | none ↦ m
  | some _ ↦
      let n = saturating_sub (connections addr.0 m) 1 in
      record m {
        peers = erase addr_dec addr m.peers;
        connections_per_ip =
            if n == 0
            then erase bytes_dec addr.0 m.connections_per_ip
            else insert bytes_dec addr.0 n m.connections_per_ip;
      }
]

unfoldable pub all_addrs : PeerManager → List SocketAddr
all_addrs m = keys m.peers

abbrev values : Dict SocketAddr PeerInfo → List PeerInfo
values [] = []
values ((_, p) ∷ d) = p ∷ values d

unfoldable pub all_peers : PeerManager → List PeerInfo
all_peers m = values m.peers

unfoldable pub set_broadcast_tx : SocketAddr → ℕ → PeerManager → PeerManager
set_broadcast_tx addr tx = update_peer addr (λ p. record p { broadcast_tx = some tx })

-- The address that a message is kept from.
abbrev pub is_excluded : Option SocketAddr → SocketAddr → Bool
is_excluded none addr = false
is_excluded (some e) addr = ite (addr_dec addr e) true false

module _ {Message : Type 0} where
  -- The message with the channel it is sent on.
  unfoldable pub broadcast_to :
      Dict SocketAddr PeerInfo → Message → Option SocketAddr → List (ℕ × Message)
  broadcast_to [] msg exclude = []
  broadcast_to ((addr, p) ∷ d) msg exclude =
      let rest = broadcast_to d msg exclude in
      if is_excluded exclude addr
      then rest
      else elim p.broadcast_tx [ none ↦ rest | some tx ↦ (tx, msg) ∷ rest ]

  unfoldable pub broadcast : PeerManager → Message → Option SocketAddr → List (ℕ × Message)
  broadcast m msg exclude = broadcast_to m.peers msg exclude
