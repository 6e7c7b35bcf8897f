-- ===== src/Hash/Scratchpad.antt =====
-- `expand_scratchpad` overwrites every word, so a hash does not depend on what the scratchpad held.
use taron.Prelude.{
  ℕ, zero, suc, ◌+◌, ◌≤◌, ◌<◌, ◌≡◌, refl, sym, ap, ◌∙◌, List, [], ◌∷◌, ◌++◌, arith, length, ltb,
  set, take, drop, length-set, inl, inr, Bool-cases, ltb→lt, lt→ltb,
}
use native.Mathlib.Numerals.{add-one}
use taron.Prelude.Words.{Bytes, from_le_bytes}
use taron.Wallet.{Crypto, IsSound}
use taron.Hash.{chunks, fill_chunks, expand_loop, expand_scratchpad, hash_with_scratchpad}

-- Two scratchpads of one length that hold the same first `n` words.
pub record Agree (n : ℕ) (p q : List ℕ) : Type 0 where
  pub same_length : length p ≡ length q
  pub same_words : take n p ≡ take n q

take-set :
    (n : ℕ) (p : List ℕ) (v : ℕ) → n < length p → take (suc n) (set p n v) ≡ take n p ++ (v ∷ [])
take-set n [] v h = elim h [ ]
take-set zero (x ∷ p) v h = refl
take-set (suc n) (x ∷ p) v h = ap (◌∷◌ x) (take-set n p v (omega arith))

take-length : (p : List ℕ) (n : ℕ) → length p ≤ n → take n p ≡ p
take-length [] zero h = refl
take-length [] (suc n) h = refl
take-length (x ∷ p) zero h = absurd (omega arith)
take-length (x ∷ p) (suc n) h = ap (◌∷◌ x) (take-length p n (omega arith))

Agree-all : (n : ℕ) (p q : List ℕ) → Agree n p q → length p ≤ n → p ≡ q
Agree-all n p q a h =
    sym (take-length p n h) ∙ (a.same_words ∙ take-length q n (omega (arith, a.same_length)))

Agree-set :
    (n : ℕ) (p q : List ℕ) (v : ℕ)
    → Agree n p q
    → n < length p
    → Agree (suc n) (set p n v) (set q n v)
Agree-set n p q v a h = record {
  same_length = length-set p n v ∙ (a.same_length ∙ sym (length-set q n v));
  same_words =
      take-set n p v h
      ∙ (ap (λ t. t ++ (v ∷ [])) a.same_words
          ∙ sym (take-set n q v (omega (arith, a.same_length))));
}

-- What the inner loop does to two scratchpads that agree so far: `r` and `s` are its results.
record Filled (idx : ℕ) (p : List ℕ) (r s : ℕ × List ℕ) : Type 0 where
  same_index : r.0 ≡ s.0
  agree : Agree r.0 r.1 s.1
  keeps_length : length r.1 ≡ length p
  grows : idx ≤ r.0

fill_chunks-Filled :
    (cs : List Bytes) (idx : ℕ) (p q : List ℕ)
    → Agree idx p q
    → Filled idx p (fill_chunks cs idx p) (fill_chunks cs idx q)
unfolding fill_chunks
fill_chunks-Filled [] idx p q a = record {
  same_index = refl;
  agree = a;
  keeps_length = refl;
  grows = omega arith;
}
fill_chunks-Filled (c ∷ cs) idx p q a = elim (Bool-cases (ltb idx (length p))) [
  | inr full ↦
      rw (fill_chunks, ← a.same_length, full)
        (record { same_index = refl; agree = a; keeps_length = refl; grows = omega arith })
  | inl room ↦
      let v = from_le_bytes c in
      let rest : Filled (idx + 1) (set p idx v) (fill_chunks cs (idx + 1) (set p idx v))
          (fill_chunks cs (idx + 1) (set q idx v)) =
        fill_chunks-Filled cs (idx + 1) (set p idx v) (set q idx v)
          (rw add-one (Agree-set idx p q v a (ltb→lt _ _ room))) in
      rw (fill_chunks, ← a.same_length, room)
        (record {
          same_index = rest.same_index;
          agree = rest.agree;
          keeps_length = rest.keeps_length ∙ length-set p idx v;
          grows = omega (arith, rest.grows);
        })
]

-- A round of the outer loop writes at least one word.
fill_chunks-grows :
    (c : Bytes) (cs : List Bytes) (idx : ℕ) (p : List ℕ)
    → idx < length p
    → idx < (fill_chunks (c ∷ cs) idx p).0
unfolding fill_chunks
fill_chunks-grows c cs idx p h =
    let v = from_le_bytes c in
    rw (fill_chunks, lt→ltb _ _ h)
      (omega (
        arith,
        (fill_chunks-Filled cs (idx + 1) (set p idx v) (set p idx v)
            (record { same_length = refl; same_words = refl })).grows,
      ))

chunks-cons :
    (bs : Bytes) → 0 < length bs → (c : Bytes) × (cs : List Bytes) × (chunks 4 bs ≡ c ∷ cs)
unfolding chunks
chunks-cons [] h = elim h [ ]
chunks-cons (b ∷ bs) h = (take 8 (b ∷ bs), chunks 3 (drop 8 (b ∷ bs)), refl)

module _ (crypto : Crypto) (sound : IsSound crypto) where
  expand_loop-overwrites :
      (fuel : ℕ) (current : Bytes) (idx : ℕ) (p q : List ℕ)
      → length current ≡ 32
      → Agree idx p q
      → length p ≤ idx + fuel
      → expand_loop crypto fuel current idx p ≡ expand_loop crypto fuel current idx q
  unfolding expand_loop
  expand_loop-overwrites zero current idx p q digest a enough = Agree-all idx p q a (omega arith)
  expand_loop-overwrites (suc fuel) current idx p q digest a enough =
      elim (Bool-cases (ltb idx (length p))) [
        | inr full ↦ rw (expand_loop, ← a.same_length, full) (Agree-all idx p q a (ground arith))
        | inl room ↦
            let (c, cs, e) = chunks-cons current (omega arith) in
            let both = fill_chunks-Filled (chunks 4 current) idx p q a in
            let more : idx < (fill_chunks (chunks 4 current) idx p).0 =
              rw e (fill_chunks-grows c cs idx p (ltb→lt _ _ room)) in
            rw (expand_loop, ← a.same_length, room, ← both.same_index)
              (expand_loop-overwrites fuel _ _ _ _ (sound.digest_length _) both.agree
                (omega (arith, both.keeps_length)))
      ]

  -- If SHA3-256 returns 32 bytes, then two scratchpads of one length expand to the same one: every
  -- word is overwritten, and the loop does not run out of fuel before that.
  pub expand_scratchpad-overwrites :
      (seed : Bytes) (p q : List ℕ)
      → length p ≡ length q
      → expand_scratchpad crypto seed p ≡ expand_scratchpad crypto seed q
  unfolding expand_scratchpad
  expand_scratchpad-overwrites seed p q h = rw (← h) (
      expand_loop-overwrites (length p) (crypto.sha3_256 seed) 0 p q (sound.digest_length seed)
        (record { same_length = h; same_words = refl }) (omega arith))

  -- If SHA3-256 returns 32 bytes, then a hash does not depend on what a scratchpad of the
  -- same length held before.
  pub hash_with_scratchpad-fresh :
      (seed : Bytes) (steps : ℕ) (p q : List ℕ)
      → length p ≡ length q
      → hash_with_scratchpad crypto seed steps p ≡ hash_with_scratchpad crypto seed steps q
  unfolding hash_with_scratchpad
  hash_with_scratchpad-fresh seed steps p q h =
      rw (hash_with_scratchpad, expand_scratchpad-overwrites seed p q h)
