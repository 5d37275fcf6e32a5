-- ===== src/Api/Limit.antt =====
-- `RateLimiter::allow` of runtime/cne_api.cpp. Times are nanoseconds of the steady clock.
use caedral_notre_engine.Prelude.{
  ℕ, ◌-◌, Bool, true, false, ◌||◌, List, [], ◌∷◌, ◌++◌, Option, none, some, Bytes, bytes_eq, ltb,
  leb, ◌==◌, if◌then◌else◌, length,
}
use caedral_notre_engine.Prelude.Assoc.{lookup, assign}

pub record RateLimiter : Type 0 where
  pub rpm : ℕ
  pub hits : List (Bytes × List ℕ)

abbrev pub window : ℕ
window = 60000000000

-- `while (!q.empty() && now - q.front() > window) q.pop_front();`
unfoldable pub drop_old : ℕ → List ℕ → List ℕ
drop_old now [] = []
drop_old now (t ∷ q) = let rest = drop_old now q in if ltb window (now - t) then rest else t ∷ q

-- The user's deque after a call, and the answer.
unfoldable pub allow_queue : ℕ → ℕ → List ℕ → List ℕ × Bool
unfolding drop_old
allow_queue rpm now q =
    let q' = drop_old now q in if leb rpm (length q') then (q', false) else (q' ++ now ∷ [], true)

abbrev pub queue_of : Option (List ℕ) → List ℕ
queue_of none = []
queue_of (some q) = q

abbrev pub anonymous : Bytes → Bool
anonymous [] = true
anonymous (c ∷ s) = false

unfoldable pub allow : RateLimiter → Bytes → ℕ → RateLimiter × Bool
unfolding allow_queue lookup assign
allow l user now =
    if (l.rpm == 0) || anonymous user
    then (l, true)
    else (let r = allow_queue l.rpm now (queue_of (lookup user l.hits)) in
        (record l { hits = assign user r.0 l.hits }, r.1))
