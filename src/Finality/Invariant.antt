-- ===== src/Finality/Invariant.antt =====
-- The invariant of the finality tracker: a transaction is never both pending and finalized, a
-- pending one has fewer ACKs than its quorum, and each ACK is genuine and from another peer. Every
-- operation preserves it.
use taron.Prelude.{
  ℕ, suc, ◌%◌, ◌⊎◌, ◌≤◌, ◌<◌, ◌≡◌, refl, inl, inr, true, false, Option, none, some, List, [], ◌∷◌,
  arith, length, ite, leb, is_some, max, ◌||◌, Option-cases, Bool-cases,
}
use taron.Prelude.Words.{Bytes, u32_mod}
use taron.Prelude.Text.{bytes_dec}
use taron.Prelude.Dict.{
  lookup, insert, lookup-insert, lookup-erase, IsUnique, insert-IsUnique, length-insert_new,
}
use taron.Error.{ok, Result-cases}
use taron.Wallet.{Crypto}
use taron.Finality.{
  TransactionStatus, TxAck, PendingTx, FinalityTracker, verify_ack, new_tracker, register_tx,
  register_tx_with_quorum, settle, record_ack, reject, reject_all, timed_out, cleanup_timeouts,
  set_quorum,
}

module _ (crypto : Crypto) where
  -- The ACKs are of this transaction, each from the peer that it is stored under, with a signature
  -- that verifies.
  abbrev pub Genuine : Bytes → PendingTx → Type 0
  Genuine h p =
      (k : Bytes) (a : TxAck)
      → lookup bytes_dec k p.acks ≡ some a
      → (a.peer_pubkey ≡ k) × (a.tx_hash ≡ h) × (verify_ack crypto a ≡ ok tt)

  pub record IsWaiting (h : Bytes) (p : PendingTx) : Type 0 where
    pub short : length p.acks < p.quorum
    pub word : p.quorum < u32_mod
    pub one_each : IsUnique bytes_dec p.acks
    pub genuine : Genuine h p

  pub record IsValid (t : FinalityTracker) : Type 0 where
    pub apart :
        (h : Bytes) (p : PendingTx)
        → lookup bytes_dec h t.pending ≡ some p
        → lookup bytes_dec h t.finalized ≡ none
    pub waiting :
        (h : Bytes) (p : PendingTx) → lookup bytes_dec h t.pending ≡ some p → IsWaiting h p
    pub default_pos : 1 ≤ t.default_quorum
    pub default_word : t.default_quorum < u32_mod

  pub new_tracker-IsValid : (quorum : ℕ) → quorum < u32_mod → IsValid (new_tracker quorum)
  unfolding new_tracker lookup
  new_tracker-IsValid quorum h = record {
    apart = λ h p e. cc;
    waiting = λ h p e. absurd (cc);
    default_pos = omega arith;
    default_word = omega arith;
  }

  fresh-IsWaiting :
      (h : Bytes) (now quorum : ℕ) (callback : Option Bytes)
      → 1 ≤ quorum
      → quorum < u32_mod
      → IsWaiting h
          (record { submitted_at = now; acks = []; quorum = quorum; callback_data = callback })
  unfolding lookup
  fresh-IsWaiting h now quorum callback pos word = record {
    short = omega arith;
    word = word;
    one_each = tt;
    genuine = λ k a e. absurd (cc);
  }

  unknown-finalized :
      (h : Bytes) (t : FinalityTracker)
      → (is_some (lookup bytes_dec h t.pending) || is_some (lookup bytes_dec h t.finalized)) ≡ false
      → lookup bytes_dec h t.finalized ≡ none
  unknown-finalized h t new = elim (Option-cases (lookup bytes_dec h t.finalized)) [
    | inl absent ↦ absent
    | inr (s, done) ↦
        let known : is_some (lookup bytes_dec h t.finalized) ≡ true = rw (done) refl in ground arith
  ]

  -- A waiting transaction may be written to a tracker that has not finalized it.
  insert-IsValid :
      (h : Bytes) (p : PendingTx) (t : FinalityTracker)
      → IsValid t
      → IsWaiting h p
      → lookup bytes_dec h t.finalized ≡ none
      → IsValid (record t { pending = insert bytes_dec h p t.pending })
  insert-IsValid h p t v w absent = record {
    apart = λ k q e. ground (arith, lookup-insert bytes_dec k h p t.pending, v.apart k q);
    waiting = λ k q e. elim (bytes_dec h k) [
      | yes same ↦
          let written : q ≡ p = ground (arith, lookup-insert bytes_dec k h p t.pending) in
          rw (← same, written) w
      | no other ↦ v.waiting k q (ground (arith, lookup-insert bytes_dec k h p t.pending))
    ];
    default_pos = v.default_pos;
    default_word = v.default_word;
  }

  -- A transaction may be finalized if it is taken from the pending ones.
  finalize-IsValid :
      (h : Bytes) (s : TransactionStatus) (t t' : FinalityTracker)
      → IsValid t
      → ((k : Bytes)
          → lookup bytes_dec k t'.pending ≡ ite (bytes_dec h k) none (lookup bytes_dec k t.pending))
      → ((k : Bytes)
          → lookup bytes_dec k t'.finalized
            ≡ ite (bytes_dec h k) (some s) (lookup bytes_dec k t.finalized))
      → t'.default_quorum ≡ t.default_quorum
      → IsValid t'
  finalize-IsValid h s t t' v p f d = record {
    apart = λ k q e. ground (arith, p k, f k, v.apart k q);
    waiting = λ k q e. v.waiting k q (ground (arith, p k));
    default_pos = omega arith;
    default_word = omega arith;
  }

  -- The transaction with one more ACK, from a peer that has sent none: it still waits unless it has
  -- reached its quorum.
  pub with_ack : TxAck → PendingTx → PendingTx
  with_ack a p = record p { acks = insert bytes_dec a.peer_pubkey a p.acks }

  pub with_ack-Genuine :
      (a : TxAck) (p : PendingTx)
      → verify_ack crypto a ≡ ok tt
      → Genuine a.tx_hash p
      → Genuine a.tx_hash (with_ack a p)
  unfolding with_ack
  with_ack-Genuine a p good g k b e = elim (bytes_dec a.peer_pubkey k) [
    | yes same ↦
        let written : b ≡ a = ground (arith, lookup-insert bytes_dec k a.peer_pubkey a p.acks) in
        rw (← same, written) (refl, refl, good)
    | no other ↦ g k b (ground (arith, lookup-insert bytes_dec k a.peer_pubkey a p.acks))
  ]

  pub with_ack-length :
      (a : TxAck) (p : PendingTx)
      → lookup bytes_dec a.peer_pubkey p.acks ≡ none
      → length (with_ack a p).acks ≡ suc (length p.acks)
  unfolding with_ack
  with_ack-length a p e = length-insert_new bytes_dec a.peer_pubkey a p.acks e

  pub with_ack-IsUnique :
      (a : TxAck) (p : PendingTx)
      → IsUnique bytes_dec p.acks
      → IsUnique bytes_dec (with_ack a p).acks
  unfolding with_ack
  with_ack-IsUnique a p u = insert-IsUnique bytes_dec a.peer_pubkey a p.acks u

  with_ack-IsWaiting :
      (a : TxAck) (p : PendingTx)
      → verify_ack crypto a ≡ ok tt
      → IsWaiting a.tx_hash p
      → lookup bytes_dec a.peer_pubkey p.acks ≡ none
      → suc (length p.acks) < p.quorum
      → IsWaiting a.tx_hash (with_ack a p)
  unfolding with_ack
  with_ack-IsWaiting a p good w e room = record {
    short = omega (arith, with_ack-length a p e);
    word = w.word;
    one_each = insert-IsUnique bytes_dec a.peer_pubkey a p.acks w.one_each;
    genuine = with_ack-Genuine a p good w.genuine;
  }

  -- A new ACK from a new peer is added, and the transaction settled.
  pub record_ack-new :
      (now : ℕ) (a : TxAck) (p : PendingTx) (t : FinalityTracker)
      → verify_ack crypto a ≡ ok tt
      → lookup bytes_dec a.tx_hash t.finalized ≡ none
      → lookup bytes_dec a.tx_hash t.pending ≡ some p
      → lookup bytes_dec a.peer_pubkey p.acks ≡ none
      → record_ack crypto now a t
        ≡ settle now a.tx_hash
            (with_ack a p)
            (record t { pending = insert bytes_dec a.tx_hash (with_ack a p) t.pending })
  unfolding record_ack with_ack
  record_ack-new now a p t good open_ waits new = rw (record_ack, good, open_, waits, new) refl

  -- In every other case the call changes nothing.
  pub record_ack-cases :
      (now : ℕ) (a : TxAck) (t : FinalityTracker)
      → ((record_ack crypto now a t).1 ≡ t)
        ⊎ ((p : PendingTx) × (verify_ack crypto a ≡ ok tt)
            × (lookup bytes_dec a.tx_hash t.finalized ≡ none)
            × (lookup bytes_dec a.tx_hash t.pending ≡ some p)
            × (lookup bytes_dec a.peer_pubkey p.acks ≡ none))
  unfolding record_ack
  record_ack-cases now a t = elim (Result-cases (verify_ack crypto a)) [
    | inr (e, bad) ↦ inl (rw (record_ack, bad) refl)
    | inl (_, good) ↦ elim (Option-cases (lookup bytes_dec a.tx_hash t.finalized)) [
      | inr (s, done) ↦ inl (rw (record_ack, good, done) refl)
      | inl open_ ↦ elim (Option-cases (lookup bytes_dec a.tx_hash t.pending)) [
        | inl unknown ↦ inl (rw (record_ack, good, open_, unknown) refl)
        | inr (p, waits) ↦ elim (Option-cases (lookup bytes_dec a.peer_pubkey p.acks)) [
          | inr (b, again) ↦ inl (rw (record_ack, good, open_, waits, again) refl)
          | inl new ↦ inr (p, good, open_, waits, new)
        ]
      ]
    ]
  ]

  pub with_ack-quorum : (a : TxAck) (p : PendingTx) → (with_ack a p).quorum ≡ p.quorum
  unfolding with_ack
  with_ack-quorum a p = refl

  -- The count is kept as a 32-bit word, which the number of ACKs fits: it is at most the quorum.
  still_short :
      (a : TxAck) (p : PendingTx)
      → IsWaiting a.tx_hash p
      → lookup bytes_dec a.peer_pubkey p.acks ≡ none
      → leb (with_ack a p).quorum (length (with_ack a p).acks % u32_mod) ≡ false
      → suc (length p.acks) < p.quorum
  still_short a p w new missing =
      ground (arith, w.short, w.word, with_ack-length a p new, with_ack-quorum a p)

  settle-IsValid :
      (now : ℕ) (a : TxAck) (p : PendingTx) (t : FinalityTracker)
      → IsValid t
      → lookup bytes_dec a.tx_hash t.finalized ≡ none
      → IsWaiting a.tx_hash p
      → verify_ack crypto a ≡ ok tt
      → lookup bytes_dec a.peer_pubkey p.acks ≡ none
      → IsValid
          (settle now a.tx_hash
            (with_ack a p)
            (record t { pending = insert bytes_dec a.tx_hash (with_ack a p) t.pending })).1
  unfolding settle
  settle-IsValid now a p t v open_ w good new =
      elim (Bool-cases (leb (with_ack a p).quorum (length (with_ack a p).acks % u32_mod))) [
        | inl reached ↦
            rw (settle, reached)
              (finalize-IsValid a.tx_hash _ t _ v
                (λ k. ground (
                  arith,
                  lookup-erase bytes_dec k a.tx_hash
                      (insert bytes_dec a.tx_hash (with_ack a p) t.pending),
                  lookup-insert bytes_dec k a.tx_hash (with_ack a p) t.pending,
                ))
                (λ k. lookup-insert bytes_dec k a.tx_hash _ t.finalized) refl)
        | inr missing ↦
            rw (settle, missing)
              (insert-IsValid a.tx_hash (with_ack a p) t v
                (with_ack-IsWaiting a p good w new (still_short a p w new missing)) open_)
      ]

  -- `record_ack` preserves the invariant, whatever ACK arrives.
  pub record_ack-IsValid :
      (now : ℕ) (a : TxAck) (t : FinalityTracker)
      → IsValid t
      → IsValid (record_ack crypto now a t).1
  record_ack-IsValid now a t v = elim (record_ack-cases now a t) [
    | inl same ↦ rw (same) v
    | inr (p, good, open_, waits, new) ↦
        rw (record_ack-new now a p t good open_ waits new)
          (settle-IsValid now a p t v open_ (v.waiting a.tx_hash p waits) good new)
  ]

  -- A registration adds a fresh transaction, or refuses one that is known.
  pub register_tx-IsValid :
      (now : ℕ) (h : Bytes) (callback : Option Bytes) (t : FinalityTracker)
      → IsValid t
      → IsValid (register_tx now h callback t).1
  unfolding register_tx
  register_tx-IsValid now h callback t v =
      elim (Bool-cases
        (is_some (lookup bytes_dec h t.pending) || is_some (lookup bytes_dec h t.finalized))) [
          | inl known ↦ rw (register_tx, known) v
          | inr new ↦
              rw (register_tx, new)
                (insert-IsValid h _ t v
                  (fresh-IsWaiting h now t.default_quorum callback v.default_pos v.default_word)
                  (unknown-finalized h t new))
        ]

  pub register_tx_with_quorum-IsValid :
      (now : ℕ) (h : Bytes) (quorum : ℕ) (callback : Option Bytes) (t : FinalityTracker)
      → quorum < u32_mod
      → IsValid t
      → IsValid (register_tx_with_quorum now h quorum callback t).1
  unfolding register_tx_with_quorum
  register_tx_with_quorum-IsValid now h quorum callback t word v =
      elim (Bool-cases
        (is_some (lookup bytes_dec h t.pending) || is_some (lookup bytes_dec h t.finalized))) [
          | inl known ↦ rw (register_tx_with_quorum, known) v
          | inr new ↦
              rw (register_tx_with_quorum, new)
                (insert-IsValid h _ t v
                  (fresh-IsWaiting h now (max quorum 1) callback (omega arith) (omega arith))
                  (unknown-finalized h t new))
        ]

  pub reject-IsValid :
      (h reason : Bytes) (t : FinalityTracker) → IsValid t → IsValid (reject h reason t)
  unfolding reject
  reject-IsValid h reason t v =
      finalize-IsValid h _ t _ v (λ k. lookup-erase bytes_dec k h t.pending)
        (λ k. lookup-insert bytes_dec k h _ t.finalized) refl

  reject_all-IsValid :
      (hs : List Bytes) (t : FinalityTracker) → IsValid t → IsValid (reject_all hs t)
  unfolding reject_all
  reject_all-IsValid [] t v = v
  reject_all-IsValid (h ∷ hs) t v = reject_all-IsValid hs (reject h _ t) (reject-IsValid h _ t v)

  pub cleanup_timeouts-IsValid :
      (now : ℕ) (t : FinalityTracker) → IsValid t → IsValid (cleanup_timeouts now t).1
  unfolding cleanup_timeouts
  cleanup_timeouts-IsValid now t v = reject_all-IsValid (timed_out now t.timeout t.pending) t v

  pub set_quorum-IsValid :
      (quorum : ℕ) (t : FinalityTracker)
      → quorum < u32_mod
      → IsValid t
      → IsValid (set_quorum quorum t)
  unfolding set_quorum
  set_quorum-IsValid quorum t word v = record {
    apart = v.apart;
    waiting = v.waiting;
    default_pos = omega arith;
    default_word = omega arith;
  }

  -- The operations of the tracker, with any arguments.
  pub data Step (t : FinalityTracker) : FinalityTracker → Type 0 where
    register :
        (now : ℕ) (h : Bytes) (callback : Option Bytes) → Step t (register_tx now h callback t).1
    register_with_quorum :
        (now : ℕ) (h : Bytes) (quorum : ℕ) (callback : Option Bytes) (word : quorum < u32_mod)
        → Step t (register_tx_with_quorum now h quorum callback t).1
    ack : (now : ℕ) (a : TxAck) → Step t (record_ack crypto now a t).1
    refuse : (h reason : Bytes) → Step t (reject h reason t)
    cleanup : (now : ℕ) → Step t (cleanup_timeouts now t).1
    requorum : (quorum : ℕ) (word : quorum < u32_mod) → Step t (set_quorum quorum t)

  -- The trackers that calls lead to, from a new one.
  pub data Reachable (quorum : ℕ) : FinalityTracker → Type 0 where
    new : Reachable quorum (new_tracker quorum)
    call : {t t' : FinalityTracker} → Reachable quorum t → Step t t' → Reachable quorum t'

  Step-IsValid : {t t' : FinalityTracker} → IsValid t → Step t t' → IsValid t'
  Step-IsValid {t} v (register now h callback) = register_tx-IsValid now h callback t v
  Step-IsValid {t} v (register_with_quorum now h quorum callback word) =
      register_tx_with_quorum-IsValid now h quorum callback t word v
  Step-IsValid {t} v (ack now a) = record_ack-IsValid now a t v
  Step-IsValid {t} v (refuse h reason) = reject-IsValid h reason t v
  Step-IsValid {t} v (cleanup now) = cleanup_timeouts-IsValid now t v
  Step-IsValid {t} v (requorum quorum word) = set_quorum-IsValid quorum t word v

  -- If the quorums that are given are 32-bit words, then whatever is called on a new tracker, in
  -- whatever order, no transaction is both pending and finalized, and each pending one has fewer ACKs
  -- than its quorum, all of them of this transaction, from different peers, with signatures that
  -- verify.
  pub Reachable-IsValid :
      (quorum : ℕ) (t : FinalityTracker) → quorum < u32_mod → Reachable quorum t → IsValid t
  Reachable-IsValid quorum t word new = new_tracker-IsValid quorum word
  Reachable-IsValid quorum t word (call r s) = Step-IsValid (Reachable-IsValid quorum _ word r) s
