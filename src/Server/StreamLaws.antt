-- ===== src/Server/StreamLaws.antt =====
-- The `TokenStream` of server/cne-server.cpp against a log of all pieces with a place to read from.
use caedral_notre_engine.Prelude.{
  ℕ, zero, suc, ◌≤◌, ◌≡◌, refl, sym, ap, ◌∙◌, Bool, true, false, ◌||◌, List, [], ◌∷◌, ◌++◌, none,
  some, Bytes, if◌then◌else◌, length, drop, get_elem?, length-append, Bool-cases, inl, inr, arith,
}
use caedral_notre_engine.Server.TokenStream.{
  TokenStream, new_stream, push, finish, abort, Pull, piece, drained, timeout, pull, pull_front,
}

-- What the two sides do.
pub data Act : Type 0 where
  pushes : Bytes → Act
  finishes : Bool → Act
  aborts : Act
  pulls : Act

-- The answers to the pulls, in their order.
unfoldable pub answers : List Act → TokenStream → List Pull
unfolding push finish abort pull
answers [] t = []
answers (pushes s ∷ acts) t = answers acts (push s t)
answers (finishes ok ∷ acts) t = answers acts (finish ok t)
answers (aborts ∷ acts) t = answers acts (abort t)
answers (pulls ∷ acts) t = (pull t).0 ∷ answers acts (pull t).1

-- A log keeps every piece; the reader is at the place `read`.
pub record Log : Type 0 where
  pub pieces : List Bytes
  pub read : ℕ
  pub closed : Bool

abbrev pub empty_log : Log
empty_log = record { pieces = []; read = 0; closed = false }

-- The piece at the place, or the end of a closed log.
unfoldable pub read_log : Log → Pull
read_log l = elim (get_elem? l.pieces l.read) [
  | some s ↦ piece s
  | none ↦ if l.closed then drained else timeout
]

abbrev pub move_on : Pull → Log → Log
move_on (piece s) l = record l { read = suc l.read }
move_on drained l = l
move_on timeout l = l

unfoldable pub log_answers : List Act → Log → List Pull
unfolding read_log
log_answers [] l = []
log_answers (pushes s ∷ acts) l = log_answers acts (record l { pieces = l.pieces ++ (s ∷ []) })
log_answers (finishes ok ∷ acts) l = log_answers acts (record l { closed = true })
log_answers (aborts ∷ acts) l = log_answers acts (record l { closed = true })
log_answers (pulls ∷ acts) l = read_log l ∷ log_answers acts (move_on (read_log l) l)

-- The queue is what is left to read.
record Shows (l : Log) (t : TokenStream) : Type 0 where
  queue : t.q ≡ drop l.read l.pieces
  place : l.read ≤ length l.pieces
  ended : (t.done || t.aborted) ≡ l.closed

drop_snoc :
    (n : ℕ) (xs : List Bytes) (s : Bytes)
    → n ≤ length xs
    → drop n (xs ++ (s ∷ [])) ≡ drop n xs ++ (s ∷ [])
drop_snoc zero xs s h = refl
drop_snoc (suc n) [] s h = absurd (omega arith)
drop_snoc (suc n) (x ∷ xs) s h = drop_snoc n xs s (omega arith)

at_end : (n : ℕ) (xs : List Bytes) → [] ≡ drop n xs → get_elem? xs n ≡ none
at_end zero [] e = refl
at_end zero (x ∷ xs) e = cc
at_end (suc n) [] e = refl
at_end (suc n) (x ∷ xs) e = at_end n xs e

at_piece :
    (n : ℕ) (xs : List Bytes) (s : Bytes) (q : List Bytes)
    → s ∷ q ≡ drop n xs
    → (get_elem? xs n ≡ some s) × (q ≡ drop (suc n) xs) × (suc n ≤ length xs)
at_piece zero [] s q e = cc
at_piece zero (x ∷ xs) s q e = (cc, cc, omega arith)
at_piece (suc n) [] s q e = cc
at_piece (suc n) (x ∷ xs) s q e = let (g, d, b) = at_piece n xs s q e in (g, d, omega (arith, b))

or_true_left : (b : Bool) → (b || true) ≡ true
or_true_left b = ground arith

pull_empty :
    (t : TokenStream) (b : Bool)
    → t.q ≡ []
    → (t.done || t.aborted) ≡ b
    → pull t ≡ (if b then (drained, t) else (timeout, t))
unfolding pull pull_front
pull_empty t b e h =
    ap (λ q. pull_front q t) e ∙ ap (λ c. if c then (drained, t) else (timeout, t)) h

pull_piece :
    (t : TokenStream) (s : Bytes) (q : List Bytes)
    → t.q ≡ s ∷ q
    → pull t ≡ (piece s, record t { q = q })
unfolding pull pull_front
pull_piece t s q e = ap (λ r. pull_front r t) e

read_log_end :
    (l : Log) (b : Bool)
    → get_elem? l.pieces l.read ≡ none
    → l.closed ≡ b
    → read_log l ≡ (if b then drained else timeout)
unfolding read_log
read_log_end l b e h = rw (read_log, e, h) refl

read_log_piece : (l : Log) (s : Bytes) → get_elem? l.pieces l.read ≡ some s → read_log l ≡ piece s
unfolding read_log
read_log_piece l s e = rw (read_log, e) refl

-- A pull answers what the log has, and the queue still shows the log.
pull-Shows :
    (l : Log) (t : TokenStream) (q : List Bytes)
    → t.q ≡ q
    → Shows l t
    → ((pull t).0 ≡ read_log l) × Shows (move_on (read_log l) l) (pull t).1
pull-Shows l t [] e r = elim (Bool-cases l.closed) [
  | inl y ↦ rw (read_log_end l true at_last y, pull_empty t true e (r.ended ∙ y)) (refl, r)
  | inr n ↦ rw (read_log_end l false at_last n, pull_empty t false e (r.ended ∙ n)) (refl, r)
]
  where
    at_last : get_elem? l.pieces l.read ≡ none
    at_last = at_end l.read l.pieces (sym e ∙ r.queue)
pull-Shows l t (s ∷ q) e r =
    let (g, d, b) = at_piece l.read l.pieces s q (sym e ∙ r.queue) in
    rw (read_log_piece l s g, pull_piece t s q e)
      (refl, record { queue = d; place = b; ended = r.ended })

answers-Shows :
    (acts : List Act) (l : Log) (t : TokenStream) → Shows l t → answers acts t ≡ log_answers acts l
unfolding answers log_answers push finish abort
answers-Shows [] l t r = refl
answers-Shows (pushes s ∷ acts) l t r =
    answers-Shows acts (record l { pieces = l.pieces ++ (s ∷ []) }) (push s t)
      (record {
        queue = ap (λ q. q ++ (s ∷ [])) r.queue ∙ sym (drop_snoc l.read l.pieces s r.place);
        place = omega (arith, r.place, length-append l.pieces (s ∷ []));
        ended = r.ended;
      })
answers-Shows (finishes ok ∷ acts) l t r =
    answers-Shows acts (record l { closed = true }) (finish ok t)
      (record { queue = r.queue; place = r.place; ended = refl })
answers-Shows (aborts ∷ acts) l t r =
    answers-Shows acts (record l { closed = true }) (abort t)
      (record { queue = r.queue; place = r.place; ended = or_true_left t.done })
answers-Shows (pulls ∷ acts) l t r =
    let (same, next) = pull-Shows l t t.q refl r in
    rw same (ap (◌∷◌ (read_log l)) (answers-Shows acts (move_on (read_log l) l) (pull t).1 next))

-- Whatever the two sides do and in whatever order, the pulls of a new stream are answered as from a
-- log that keeps all pieces: each pull gets the next piece that was pushed, none is lost or repeated,
-- and the end is reported only when all were given and the stream is finished or aborted.
pub answers_refine_log : (acts : List Act) → answers acts new_stream ≡ log_answers acts empty_log
answers_refine_log acts =
    answers-Shows acts empty_log new_stream
      (record { queue = refl; place = omega arith; ended = refl })
