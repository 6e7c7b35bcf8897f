-- ===== src/Pool/Dedup/Window.antt =====
-- How long `TachyonGuard` remembers a share: two rotations of its buckets at least.
use taron.Prelude.{
  ℕ, zero, suc, ◌+◌, ◌-◌, ◌*◌, ◌%◌, ◌≤◌, ◌<◌, ◌≡◌, ◌≢◌, inl, inr, refl, ◌∙◌, true, false, List, [],
  ◌∷◌, arith, length, leb, get_or, set, length-set, Bool-cases, ℕ_discrete,
}
use taron.Prelude.Words.{Bytes}
use taron.Pool.Dedup.{
  TachyonGuard, bucket_ttl_ms, make_key, member, in_some, maybe_rotate, remember, is_duplicate,
}

get_or-set_self :
    (bs : List (List ℕ)) (i : ℕ) (v : List ℕ) → i < length bs → get_or (set bs i v) i [] ≡ v
get_or-set_self [] i v lt = absurd (omega arith)
get_or-set_self (b ∷ bs) zero v lt = refl
get_or-set_self (b ∷ bs) (suc i) v lt = get_or-set_self bs i v (omega arith)

get_or-set_ne :
    (bs : List (List ℕ)) (i j : ℕ) (v : List ℕ) → i ≢ j → get_or (set bs i v) j [] ≡ get_or bs j []
get_or-set_ne [] i j v ne = refl
get_or-set_ne (b ∷ bs) zero zero v ne = absurd (ne refl)
get_or-set_ne (b ∷ bs) zero (suc j) v ne = refl
get_or-set_ne (b ∷ bs) (suc i) zero v ne = refl
get_or-set_ne (b ∷ bs) (suc i) (suc j) v ne = get_or-set_ne bs i j v (λ e. ne (omega arith))

member-in_some :
    (key : ℕ) (bs : List (List ℕ)) (i : ℕ)
    → member key (get_or bs i []) ≡ true
    → in_some key bs ≡ true
unfolding in_some member
member-in_some key [] i h = absurd (ground arith)
member-in_some key (b ∷ bs) zero h = ground arith
member-in_some key (b ∷ bs) (suc i) h = ground (arith, member-in_some key bs i h)

-- The key is in the bucket `i`, which was written to until `start` at the earliest; since then the
-- buckets have been rotated at most twice.
pub record Kept (key i start : ℕ) (g : TachyonGuard) : Type 0 where
  pub three : length g.buckets ≡ 3
  pub small : i < 3
  pub inside : member key (get_or g.buckets i []) ≡ true
  pub rotations : ℕ
  pub few : rotations ≤ 2
  pub place : g.current ≡ (i + rotations) % 3
  pub since : start + bucket_ttl_ms * rotations ≤ g.last_rotate_ms

maybe_rotate-Kept :
    (key i start now : ℕ) (g : TachyonGuard)
    → now < start + 3 * bucket_ttl_ms
    → Kept key i start g
    → Kept key i start (maybe_rotate now g)
unfolding maybe_rotate
maybe_rotate-Kept key i start now g early k =
    elim (Bool-cases (leb bucket_ttl_ms (now - g.last_rotate_ms))) [
      | inr young ↦ rw (maybe_rotate, young) k
      | inl old ↦
          let passed : bucket_ttl_ms + g.last_rotate_ms ≤ now = ground arith in
          let other : (g.current + 1) % 3 ≢ i =
            λ e. omega (arith, k.since, k.place, k.small, k.few) in
          rw (maybe_rotate, old)
            (record {
              three = length-set g.buckets ((g.current + 1) % 3) [] ∙ k.three;
              small = k.small;
              inside = rw (get_or-set_ne g.buckets ((g.current + 1) % 3) i [] other) k.inside;
              rotations = suc k.rotations;
              few = omega (arith, k.since, k.few);
              place = omega (arith, k.place);
              since = omega (arith, k.since);
            })
    ]

remember-Kept :
    (key i start other : ℕ) (g : TachyonGuard)
    → Kept key i start g
    → Kept key i start (remember other g)
unfolding remember member
remember-Kept key i start other g k = elim (ℕ_discrete g.current i) [
  | yes same ↦
      let room : g.current < length g.buckets = omega (arith, k.three, k.small, same) in
      let held : member key (get_or g.buckets g.current []) ≡ true = rw same k.inside in
      let written : member key
            (get_or (set g.buckets g.current (other ∷ get_or g.buckets g.current [])) g.current [])
          ≡ true =
        rw (get_or-set_self g.buckets g.current (other ∷ get_or g.buckets g.current []) room)
          (ground (arith, held)) in
      record {
        three = length-set g.buckets g.current _ ∙ k.three;
        small = k.small;
        inside = rw (← same) written;
        rotations = k.rotations;
        few = k.few;
        place = k.place;
        since = k.since;
      }
  | no apart ↦ record {
    three = length-set g.buckets g.current _ ∙ k.three;
    small = k.small;
    inside =
        rw (get_or-set_ne g.buckets g.current i (other ∷ get_or g.buckets g.current []) apart)
          k.inside;
    rotations = k.rotations;
    few = k.few;
    place = k.place;
    since = k.since;
  }
]

is_duplicate-Kept :
    (key i start now block_index nonce : ℕ) (worker : Bytes) (g : TachyonGuard)
    → now < start + 3 * bucket_ttl_ms
    → Kept key i start g
    → Kept key i start (is_duplicate now block_index nonce worker g).1
unfolding is_duplicate
is_duplicate-Kept key i start now block_index nonce worker g early k =
    let rotated = maybe_rotate-Kept key i start now g early k in
    elim (Bool-cases (in_some (make_key block_index nonce worker) (maybe_rotate now g).buckets)) [
      | inl known ↦ rw (is_duplicate, known) rotated
      | inr new ↦
          rw (is_duplicate, new)
            (remember-Kept key i start (make_key block_index nonce worker) (maybe_rotate now g)
              rotated)
    ]

-- The guards that calls up to a time lead to.
pub data Reach (limit : ℕ) (g : TachyonGuard) : TachyonGuard → Type 0 where
  here : Reach limit g g
  next :
      {g₁ : TachyonGuard} (now block_index nonce : ℕ) (worker : Bytes) (early : now ≤ limit)
      → Reach limit g g₁
      → Reach limit g (is_duplicate now block_index nonce worker g₁).1

Reach-Kept :
    (key i start limit : ℕ) (g g' : TachyonGuard)
    → limit < start + 3 * bucket_ttl_ms
    → Kept key i start g
    → Reach limit g g'
    → Kept key i start g'
Reach-Kept key i start limit g g' bound k here = k
Reach-Kept key i start limit g g' bound k (next {g₁ = g₁} now block_index nonce worker early r) =
    is_duplicate-Kept key i start now block_index nonce worker g₁ (omega arith)
      (Reach-Kept key i start limit g g₁ bound k r)

Kept-is_duplicate :
    (i start now block_index nonce : ℕ) (worker : Bytes) (g : TachyonGuard)
    → now < start + 3 * bucket_ttl_ms
    → Kept (make_key block_index nonce worker) i start g
    → (is_duplicate now block_index nonce worker g).0 ≡ true
unfolding is_duplicate
Kept-is_duplicate i start now block_index nonce worker g early k =
    let key = make_key block_index nonce worker in
    let rotated = maybe_rotate-Kept key i start now g early k in
    rw (is_duplicate, member-in_some key (maybe_rotate now g).buckets i rotated.inside) refl

-- A guard as the program makes it: three buckets, of which one is written to.
pub record IsValid (g : TachyonGuard) : Type 0 where
  pub three : length g.buckets ≡ 3
  pub small : g.current < 3

maybe_rotate-IsValid :
    (now : ℕ) (g : TachyonGuard)
    → IsValid g
    → IsValid (maybe_rotate now g) × (now < (maybe_rotate now g).last_rotate_ms + bucket_ttl_ms)
unfolding maybe_rotate
maybe_rotate-IsValid now g v = elim (Bool-cases (leb bucket_ttl_ms (now - g.last_rotate_ms))) [
  | inr young ↦ rw (maybe_rotate, young) (v, ground arith)
  | inl old ↦
      rw (maybe_rotate, old)
        (
          record {
            three = length-set g.buckets ((g.current + 1) % 3) [] ∙ v.three;
            small = omega arith;
          },
          omega arith,
        )
]

remember-new :
    (key : ℕ) (g : TachyonGuard) → IsValid g → Kept key g.current g.last_rotate_ms (remember key g)
unfolding remember member
remember-new key g v =
    let room : g.current < length g.buckets = omega (arith, v.three, v.small) in
    record {
      three = length-set g.buckets g.current _ ∙ v.three;
      small = v.small;
      inside =
          rw (get_or-set_self g.buckets g.current (key ∷ get_or g.buckets g.current []) room)
            (ground arith);
      rotations = 0;
      few = omega arith;
      place = omega (arith, v.small);
      since = omega arith;
    }

accepted-Kept :
    (now block_index nonce : ℕ) (worker : Bytes) (g : TachyonGuard)
    → IsValid g
    → (is_duplicate now block_index nonce worker g).0 ≡ false
    → Kept
        (make_key block_index nonce worker)
        (maybe_rotate now g).current
        (maybe_rotate now g).last_rotate_ms
        (is_duplicate now block_index nonce worker g).1
unfolding is_duplicate
accepted-Kept now block_index nonce worker g v new =
    elim (Bool-cases (in_some (make_key block_index nonce worker) (maybe_rotate now g).buckets)) [
      | inl known ↦ absurd (ground (arith, known))
      | inr fresh ↦
          rw (is_duplicate, fresh)
            (remember-new (make_key block_index nonce worker) (maybe_rotate now g)
              (maybe_rotate-IsValid now g v).0)
    ]

-- A share that was accepted as new is reported as a duplicate when it comes again within 120 seconds,
-- whatever other shares come in between.
pub is_duplicate-within_window :
    (now later block_index nonce : ℕ) (worker : Bytes) (g g' : TachyonGuard)
    → IsValid g
    → (is_duplicate now block_index nonce worker g).0 ≡ false
    → later ≤ now + 2 * bucket_ttl_ms
    → Reach later (is_duplicate now block_index nonce worker g).1 g'
    → (is_duplicate later block_index nonce worker g').0 ≡ true
is_duplicate-within_window now later block_index nonce worker g g' v new soon r =
    let g₀ = maybe_rotate now g in
    let bound : later < g₀.last_rotate_ms + 3 * bucket_ttl_ms =
      omega (arith, (maybe_rotate-IsValid now g v).1) in
    Kept-is_duplicate g₀.current g₀.last_rotate_ms later block_index nonce worker g' bound (
      Reach-Kept (make_key block_index nonce worker) g₀.current g₀.last_rotate_ms later
        (is_duplicate now block_index nonce worker g).1 g' bound
        (accepted-Kept now block_index nonce worker g v new) r)
