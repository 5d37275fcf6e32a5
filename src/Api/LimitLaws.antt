-- ===== src/Api/LimitLaws.antt =====
-- The sliding window of `RateLimiter::allow`: which calls of a user get through.
use caedral_notre_engine.Prelude.{
  ℕ, suc, ◌-◌, ◌≤◌, ◌≡◌, refl, ◌∙◌, false, ◌||◌, ◌&&◌, List, [], ◌∷◌, ◌++◌, Bytes, arith, leb, ◌==◌,
  if◌then◌else◌, length, nat_eq, bytes_eq, bytes_beq, bytes_beq_refl, bytes_beq_iff, Bool-cases,
  inl, inr,
}
use caedral_notre_engine.Prelude.Assoc.{lookup, assign, lookup-assign}
use caedral_notre_engine.Api.Limit.{
  RateLimiter, window, drop_old, allow_queue, allow, queue_of, anonymous,
}

-- The times come in order, and none is before `last`.
unfoldable pub Ordered : ℕ → List ℕ → Type 0
Ordered last [] = Unit
Ordered last (t ∷ ts) = (last ≤ t) × Ordered t ts

-- How many of the times lie within the window before `now`.
unfoldable pub recent : ℕ → List ℕ → ℕ
recent now [] = 0
recent now (t ∷ ts) = let rest = recent now ts in if leb (now - t) window then suc rest else rest

-- The reference limiter: it keeps the times of all calls let through, the last one first, and lets a
-- call through if fewer than `rpm` of them are recent.
unfoldable pub sliding : ℕ → List ℕ → List ℕ → List ℕ
unfolding recent
sliding rpm [] accepted = accepted
sliding rpm (t ∷ ts) accepted =
    sliding rpm ts (if leb rpm (recent t accepted) then accepted else t ∷ accepted)

-- One user's calls: the times of those let through, the last one first.
unfoldable pub replay : ℕ → List ℕ → List ℕ → List ℕ → List ℕ
unfolding allow_queue
replay rpm [] q accepted = accepted
replay rpm (t ∷ ts) q accepted =
    let r = allow_queue rpm t q in replay rpm ts r.0 (if r.1 then t ∷ accepted else accepted)

unfoldable pub Before : ℕ → List ℕ → Type 0
Before last [] = Unit
Before last (t ∷ ts) = (t ≤ last) × Before last ts

recent-append : (now t : ℕ) (q : List ℕ) → recent now (q ++ t ∷ []) ≡ recent now (t ∷ q)
unfolding recent
recent-append now t [] = refl
recent-append now t (x ∷ q) = ground (arith, recent-append now t q)

-- What is dropped at one time is recent at no later time.
recent-drop_old : (t now : ℕ) (q : List ℕ) → t ≤ now → recent now (drop_old t q) ≡ recent now q
unfolding recent drop_old
recent-drop_old t now [] h = refl
recent-drop_old t now (x ∷ q) h = ground (arith, recent-drop_old t now q)

recent_all : (t last : ℕ) (q : List ℕ) → t - last ≤ window → Ordered last q → recent t q ≡ length q
unfolding recent Ordered
recent_all t last [] h o = refl
recent_all t last (x ∷ q) h o = ground (arith, recent_all t x q)

recent-dropped :
    (t last : ℕ) (q : List ℕ) → Ordered last q → recent t (drop_old t q) ≡ length (drop_old t q)
unfolding recent drop_old Ordered
recent-dropped t last [] o = refl
recent-dropped t last (x ∷ q) o = ground (arith, recent-dropped t x q, recent_all t x q)

Ordered-weaken : (a b : ℕ) (q : List ℕ) → a ≤ b → Ordered b q → Ordered a q
unfolding Ordered
Ordered-weaken a b [] h o = tt
Ordered-weaken a b (x ∷ q) h o = (omega arith, o.1)

Ordered-drop_old : (t last : ℕ) (q : List ℕ) → Ordered last q → Ordered last (drop_old t q)
unfolding Ordered drop_old
Ordered-drop_old t last [] o = tt
Ordered-drop_old t last (x ∷ q) o =
    ground (arith, Ordered-weaken last x (drop_old t q), Ordered-drop_old t x q)

Ordered-append :
    (t last : ℕ) (q : List ℕ) → last ≤ t → Ordered last q → Before t q → Ordered last (q ++ t ∷ [])
unfolding Ordered Before
Ordered-append t last [] h o b = (h, tt)
Ordered-append t last (x ∷ q) h o b = (o.0, Ordered-append t x q b.0 o.1 b.1)

Before-drop_old : (now t : ℕ) (q : List ℕ) → Before now q → Before now (drop_old t q)
unfolding Before drop_old
Before-drop_old now t [] b = tt
Before-drop_old now t (x ∷ q) b = ground (arith, Before-drop_old now t q)

Before-weaken : (a b : ℕ) (q : List ℕ) → a ≤ b → Before a q → Before b q
unfolding Before
Before-weaken a b [] h o = tt
Before-weaken a b (x ∷ q) h o = (omega arith, Before-weaken a b q h o.1)

Before-append : (t : ℕ) (q : List ℕ) → Before t q → Before t (q ++ t ∷ [])
unfolding Before
Before-append t [] b = (omega arith, tt)
Before-append t (x ∷ q) b = (b.0, Before-append t q b.1)

-- A deque in order whose recent times are those let through.
Kept : ℕ → List ℕ → List ℕ → Type 0
Kept last q accepted =
    Ordered 0 q × (Before last q × ((n : ℕ) → last ≤ n → recent n accepted ≡ recent n q))

Kept-drop :
    (last t : ℕ) (q accepted : List ℕ)
    → last ≤ t
    → Kept last q accepted
    → Kept t (drop_old t q) accepted
unfolding Kept
Kept-drop last t q accepted h k = (
  Ordered-drop_old t 0 q k.0,
  (
    Before-drop_old t t q (Before-weaken last t q h k.1.0),
    λ n l. ground (arith, k.1.1 n, recent-drop_old t n q),
  ),
)

Kept-push : (t : ℕ) (q accepted : List ℕ) → Kept t q accepted → Kept t (q ++ t ∷ []) (t ∷ accepted)
unfolding Kept recent
Kept-push t q accepted k = (
  Ordered-append t 0 q (omega arith) k.0 k.1.0,
  (Before-append t q k.1.0, λ n l. ground (arith, k.1.1 n, recent-append n t q)),
)

Kept-length :
    (last t : ℕ) (q accepted : List ℕ)
    → last ≤ t
    → Kept last q accepted
    → recent t accepted ≡ length (drop_old t q)
unfolding Kept
Kept-length last t q accepted h k =
    ground (arith, k.1.1 t, recent-drop_old t t q, recent-dropped t 0 q k.0)

replay-sliding :
    (rpm last : ℕ) (ts q accepted : List ℕ)
    → Ordered last ts
    → Kept last q accepted
    → replay rpm ts q accepted ≡ sliding rpm ts accepted
unfolding replay sliding allow_queue Ordered
replay-sliding rpm last [] q accepted o k = refl
replay-sliding rpm last (t ∷ ts) q accepted o k = ground (
  arith,
  Kept-length last t q accepted,
  Kept-drop last t q accepted,
  Kept-push t (drop_old t q) accepted,
  replay-sliding rpm t ts (drop_old t q) accepted,
  replay-sliding rpm t ts (drop_old t q ++ t ∷ []) (t ∷ accepted),
)

-- The calls of many users, through `allow`: the times at which `user` was let through.
unfoldable pub let_through : RateLimiter → Bytes → List (Bytes × ℕ) → List ℕ → List ℕ
unfolding allow
let_through l user [] accepted = accepted
let_through l user ((v, t) ∷ calls) accepted =
    let r = allow l v t in
    let_through r.0 user calls (if bytes_beq v user && r.1 then t ∷ accepted else accepted)

unfoldable pub times_of : Bytes → List (Bytes × ℕ) → List ℕ
times_of user [] = []
times_of user ((v, t) ∷ calls) =
    let rest = times_of user calls in if bytes_beq v user then t ∷ rest else rest

queue_after : RateLimiter → Bytes → List ℕ
queue_after l user = queue_of (lookup user l.hits)

limited :
    (l : RateLimiter) (v : Bytes) (t : ℕ)
    → ((l.rpm == 0) || anonymous v) ≡ false
    → allow l v t ≡ (
      record l { hits = assign v (allow_queue l.rpm t (queue_after l v)).0 l.hits },
      (allow_queue l.rpm t (queue_after l v)).1,
    )
unfolding allow queue_after
limited l v t h = rw h refl

allow-rpm : (l : RateLimiter) (v : Bytes) (t : ℕ) → (allow l v t).0.rpm ≡ l.rpm
unfolding allow
allow-rpm l v t = elim (Bool-cases ((l.rpm == 0) || anonymous v)) [
  | inl y ↦ rw y refl
  | inr n ↦ rw n refl
]

allow_same :
    (l : RateLimiter) (user : Bytes) (t : ℕ)
    → ((l.rpm == 0) || anonymous user) ≡ false
    → queue_after (allow l user t).0 user ≡ (allow_queue l.rpm t (queue_after l user)).0
unfolding queue_after
allow_same l user t h =
    rw
      (
        limited l user t h,
        lookup-assign user user (allow_queue l.rpm t (queue_after l user)).0 l.hits,
        bytes_beq_refl user,
      )
      refl

allow_other :
    (l : RateLimiter) (v user : Bytes) (t : ℕ)
    → bytes_beq v user ≡ false
    → queue_after (allow l v t).0 user ≡ queue_after l user
unfolding allow queue_after
allow_other l v user t h = elim (Bool-cases ((l.rpm == 0) || anonymous v)) [
  | inl y ↦ rw y refl
  | inr n ↦ rw (n, lookup-assign user v (allow_queue l.rpm t (queue_after l v)).0 l.hits, h) refl
]

allow_answer :
    (l : RateLimiter) (user : Bytes) (t : ℕ)
    → ((l.rpm == 0) || anonymous user) ≡ false
    → (allow l user t).1 ≡ (allow_queue l.rpm t (queue_after l user)).1
allow_answer l user t h = rw (limited l user t h) refl

let_through-replay :
    (user : Bytes) (calls : List (Bytes × ℕ)) (l : RateLimiter) (accepted : List ℕ)
    → ((l.rpm == 0) || anonymous user) ≡ false
    → let_through l user calls accepted
      ≡ replay l.rpm (times_of user calls) (queue_after l user) accepted
unfolding let_through times_of replay
let_through-replay user [] l accepted h = refl
let_through-replay user ((v, t) ∷ calls) l accepted h = elim (Bool-cases (bytes_beq v user)) [
  | inl y ↦
      rw
        (
          y,
          (bytes_beq_iff v user).0 y,
          let_through-replay user calls (allow l user t).0
              (if (allow l user t).1 then t ∷ accepted else accepted) (rw (allow-rpm l user t) h),
          allow-rpm l user t,
          allow_same l user t h,
          allow_answer l user t h,
        )
        refl
  | inr n ↦
      rw
        (
          n,
          let_through-replay user calls (allow l v t).0 accepted (rw (allow-rpm l v t) h),
          allow-rpm l v t,
          allow_other l v user t n,
        )
        refl
]

-- From a limiter without calls, with a limit and for a named user whose calls come in the order of
-- time: whatever the others call, the user's calls that are let through are those that the reference
-- limiter lets through, which forgets nothing.
pub allow-sliding :
    (rpm : ℕ) (user : Bytes) (calls : List (Bytes × ℕ))
    → ((rpm == 0) || anonymous user) ≡ false
    → Ordered 0 (times_of user calls)
    → let_through (record { rpm = rpm; hits = [] }) user calls []
      ≡ sliding rpm (times_of user calls) []
unfolding queue_after Kept Ordered Before recent replay sliding lookup
allow-sliding rpm user calls h o =
    let_through-replay user calls (record { rpm = rpm; hits = [] }) [] h
    ∙ replay-sliding rpm 0 (times_of user calls) [] [] o (tt, (tt, λ n l. refl))

recent_antitone : (t now : ℕ) (q : List ℕ) → t ≤ now → recent now q ≤ recent t q
unfolding recent
recent_antitone t now [] h = omega arith
recent_antitone t now (x ∷ q) h = ground (arith, recent_antitone t now q)

sliding-recent :
    (rpm now : ℕ) (ts accepted : List ℕ)
    → Before now ts
    → recent now accepted ≤ rpm
    → recent now (sliding rpm ts accepted) ≤ rpm
unfolding sliding recent Before
sliding-recent rpm now [] accepted b h = h
sliding-recent rpm now (t ∷ ts) accepted b h = ground (
  arith,
  recent_antitone t now accepted,
  sliding-recent rpm now ts accepted,
  sliding-recent rpm now ts (t ∷ accepted),
)

-- With a limit, and for a named user whose calls come in the order of time and not after `now`: of
-- the calls let through, no more than the limit lie within the window that ends at `now`.
pub allow-recent :
    (rpm now : ℕ) (user : Bytes) (calls : List (Bytes × ℕ))
    → ((rpm == 0) || anonymous user) ≡ false
    → Ordered 0 (times_of user calls)
    → Before now (times_of user calls)
    → recent now (let_through (record { rpm = rpm; hits = [] }) user calls []) ≤ rpm
allow-recent rpm now user calls h o b =
    rw (allow-sliding rpm user calls h o)
      (sliding-recent rpm now (times_of user calls) [] b (unfold recent in omega arith))
