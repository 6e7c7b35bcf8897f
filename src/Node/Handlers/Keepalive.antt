-- ===== src/Node/Handlers/Keepalive.antt =====
-- The ping interval of `handle_messages` in crates/taron-node/src/node.rs: idle peers, the watchdog
-- of the initial download, and the ping.
use taron.Prelude.{ℕ, Bool, true, false, none, some, [], ◌∷◌, ◌++◌, ltb, leb, max, if◌then◌else◌}
use taron.Prelude.Words.{saturating_sub}
use taron.Node.Protocol.{Message}
use taron.Node.State.{
  TaronNode, Connection, Env, Turn, going, returned, failed, stay, request_blocks, is_driver,
}

-- 120 seconds
abbrev pub idle_limit : ℕ
idle_limit = 120_000_000_000

-- `IBD_RESEND_INTERVAL_SECS`
abbrev pub ibd_resend_interval : ℕ
ibd_resend_interval = 12_000_000_000

-- `IBD_STALL_SWITCH_SECS`
abbrev pub ibd_stall_switch : ℕ
ibd_stall_switch = 45_000_000_000

-- Progress since the last time is noted.
unfoldable pub note_progress : Env → TaronNode → Connection → Connection
note_progress env n conn =
    if ltb conn.last_ibd_progress_height n.chain_height
    then record conn { last_ibd_progress_height = n.chain_height; last_ibd_progress_at = env.now }
    else conn

unfoldable pub need_resend : Env → Connection → Bool
need_resend env conn = elim conn.last_ibd_request_at [
  | none ↦ true
  | some t ↦ leb ibd_resend_interval (saturating_sub env.now t)
]

-- Without progress for too long, the slot is free for another peer and the connection ends.
unfoldable pub check_stall : Env → Turn → Turn
check_stall env turn = elim turn.verdict [
  | going ↦
      if leb ibd_stall_switch (saturating_sub env.now turn.conn.last_ibd_progress_at)
      then record turn {
        node = record turn.node { ibd_peer = none; sync_ready = false };
        verdict = failed;
      }
      else turn
  | returned ↦ turn
  | failed ↦ turn
]

-- The watchdog, for the peer that drives the download and has reported the height `ph`.
unfoldable pub watchdog : Env → ℕ → Connection → TaronNode → Turn
watchdog env ph conn n =
    let n = record n { max_seen_height = max n.max_seen_height ph } in
    let conn = note_progress env n conn in
    if ltb n.chain_height ph
    then check_stall env
        (if need_resend env conn then request_blocks env n.chain_height ph conn n else stay conn n)
    else stay conn n

-- The ping, unless the connection ends.
unfoldable pub then_ping : Env → Turn → Turn
then_ping env turn = elim turn.verdict [
  | going ↦
      if env.is_open
      then record turn { sent = turn.sent ++ ((turn.conn.out_tx, Message.ping env.nonce) ∷ []) }
      else record turn { verdict = failed }
  | returned ↦ turn
  | failed ↦ turn
]

unfoldable pub handle_tick : Env → Connection → TaronNode → Turn
handle_tick env conn n =
    if ltb idle_limit (saturating_sub env.now conn.last_recv)
    then record { node = n; conn = conn; sent = []; verdict = failed }
    else then_ping env (
        if is_driver conn.addr n
        then elim conn.peer_height [ none ↦ stay conn n | some ph ↦ watchdog env ph conn n ]
        else stay conn n)
