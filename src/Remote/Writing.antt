-- ===== src/Remote/Writing.antt =====
-- The queue of writes of one connection: `queueMessage`, `beginWrite` and the end of a write.
use androidtvremote_native.Common.{
  ℕ, ◌≡◌, ◌≢◌, refl, ap, sym, ◌∙◌, Bool, true, false, Bool-cases, inl, inr, none, List, [], ◌∷◌,
  ◌++◌, append-nil, append_assoc, take, ◌==◌, ==_refl, if◌then◌else◌, arith,
}
use androidtvremote_native.Wire.Writer.{frame}
use androidtvremote_native.Remote.State.{State, Operation}
use androidtvremote_native.Remote.Connection.{
  reset_idle_timer, begin_write_front, begin_write, queue_message,
}
use androidtvremote_native.Remote.Handlers.{pop_front, on_write}
use androidtvremote_native.Remote.Machine.{without}

-- The bytes that the writes in flight of a connection hand over.
abbrev front_of : ℕ → Operation → List (List ℕ)
front_of g (Operation.write h f) = if h == g then f ∷ [] else []
front_of g _ = []

unfoldable pub fronts : ℕ → List Operation → List (List ℕ)
fronts g [] = []
fronts g (o ∷ os) = front_of g o ++ fronts g os

fronts-append : (g : ℕ) (p q : List Operation) → fronts g (p ++ q) ≡ fronts g p ++ fronts g q
unfolding fronts
fronts-append g [] q = refl
fronts-append g (o ∷ p) q =
    ap (λ rest. front_of g o ++ rest) (fronts-append g p q)
    ∙ sym (append_assoc (front_of g o) (fronts g p) (fronts g q))

-- What is in flight when a write is, or is not, in progress.
abbrev in_flight : Bool → List (List ℕ) → List (List ℕ)
in_flight true queue = take 1 queue
in_flight false queue = []

-- An open connection of the generation `g` whose write in flight is the front of the queue.
pub record Writing (g : ℕ) (s : State) : Type 0 where
  pub generation : s.generation ≡ g
  pub stream : s.stream ≡ true
  pub carried : fronts g s.pending ≡ in_flight s.write_in_progress s.write_queue
  pub idle : s.write_in_progress ≡ false → s.write_queue ≡ []
  pub busy : s.write_in_progress ≡ true → s.write_queue ≢ []

begin_write_front-Writing :
    (g : ℕ) (s : State) (queue : List (List ℕ))
    → s.generation ≡ g
    → s.stream ≡ true
    → s.write_queue ≡ queue
    → fronts g s.pending ≡ []
    → Writing g (begin_write_front s queue) × ((begin_write_front s queue).write_queue ≡ queue)
unfolding fronts
begin_write_front-Writing g s [] e o w f = ground arith
begin_write_front-Writing g s (front ∷ queue) e o w f =
    ground (arith, fronts-append g s.pending (Operation.write s.generation front ∷ []), ==_refl g)

begin_write-Writing :
    (g : ℕ) (s : State)
    → s.generation ≡ g
    → s.stream ≡ true
    → fronts g s.pending ≡ []
    → Writing g (begin_write s) × ((begin_write s).write_queue ≡ s.write_queue)
unfolding begin_write
begin_write-Writing g s e o f =
    ground (arith, begin_write_front-Writing g s s.write_queue e o refl f)

take_one-append :
    (queue : List (List ℕ)) (f : List ℕ) → queue ≢ [] → take 1 (queue ++ f ∷ []) ≡ take 1 queue
take_one-append [] f h = absurd (h refl)
take_one-append (front ∷ queue) f h = refl

append-ne-nil : (queue : List (List ℕ)) (f : List ℕ) → queue ++ f ∷ [] ≢ []
append-ne-nil [] f = λ e. cc
append-ne-nil (front ∷ queue) f = λ e. cc

idle_wait-fronts :
    (g h : ℕ) (p : List Operation) → fronts g (p ++ Operation.idle_wait h ∷ []) ≡ fronts g p
unfolding fronts
idle_wait-fronts g h p = fronts-append g p (Operation.idle_wait h ∷ []) ∙ append-nil (fronts g p)

-- Another payload goes to the end of the queue.
pub queue_message-Writing :
    (g : ℕ) (s : State) (payload : List ℕ)
    → Writing g s
    → Writing g (queue_message payload s)
      × ((queue_message payload s).write_queue ≡ s.write_queue ++ frame payload ∷ [])
unfolding queue_message reset_idle_timer
queue_message-Writing g s payload w =
    let queue : List (List ℕ) = s.write_queue ++ frame payload ∷ [] in
    let u : State = record s {
      pending = s.pending ++ Operation.idle_wait s.generation ∷ [];
      write_queue = queue;
    } in
    let quiet = idle_wait-fronts g s.generation s.pending in
    elim (Bool-cases s.write_in_progress) [
      | inl busy ↦ ground (
        arith,
        take_one-append s.write_queue (frame payload) (w.busy busy),
        quiet,
        append-ne-nil s.write_queue (frame payload),
      )
      | inr idle ↦ ground (arith, begin_write-Writing g u w.generation w.stream, quiet)
    ]

append_cons-ne-nil : (xs ys : List (List ℕ)) (f : List ℕ) → xs ++ f ∷ ys ≢ []
append_cons-ne-nil [] ys f = λ e. cc
append_cons-ne-nil (x ∷ xs) ys f = λ e. cc

-- At most one write is in flight, so that the one that ends is the front of the queue.
sole :
    (xs ys : List (List ℕ)) (f : List ℕ) (b : Bool) (queue : List (List ℕ))
    → xs ++ f ∷ ys ≡ in_flight b queue
    → (rest : List (List ℕ)) × (queue ≡ f ∷ rest) × (xs ++ ys ≡ []) × (b ≡ true)
sole xs ys f false queue e = absurd (append_cons-ne-nil xs ys f e)
sole xs ys f true [] e = absurd (append_cons-ne-nil xs ys f e)
sole [] ys f true (x ∷ rest) e = (rest, cc, cc, refl)
sole (y ∷ xs) ys f true (x ∷ rest) e = absurd (append_cons-ne-nil xs ys f (cc))

write-fronts :
    (g : ℕ) (f : List ℕ) (q : List Operation) → fronts g (Operation.write g f ∷ q) ≡ f ∷ fronts g q
unfolding fronts
write-fronts g f q = ground (arith, ==_refl g)

-- The end of a write takes it off the queue and starts the next one.
pub on_write-Writing :
    (g : ℕ) (s : State) (p q : List Operation) (f : List ℕ)
    → Writing g s
    → s.pending ≡ p ++ Operation.write g f ∷ q
    → (s.write_queue ≡ f ∷ (on_write g none (without s p q)).write_queue)
      × Writing g (on_write g none (without s p q))
unfolding on_write
on_write-Writing g s p q f w e =
    let split : fronts g s.pending ≡ fronts g p ++ f ∷ fronts g q =
      ap (fronts g) e
      ∙ fronts-append g p (Operation.write g f ∷ q)
      ∙ ap (λ rest. fronts g p ++ rest) (write-fronts g f q) in
    let (rest, queue, none_left, busy) =
      sole (fronts g p) (fronts g q) f s.write_in_progress s.write_queue (sym split ∙ w.carried) in
    let t : State = record s { pending = p ++ q; write_queue = pop_front s.write_queue } in
    let cleared : fronts g t.pending ≡ [] = fronts-append g p q ∙ none_left in
    let (next, same) = begin_write-Writing g t w.generation w.stream cleared in
    let current : (g == s.generation) ≡ true = ground (arith, ==_refl g, w.generation) in
    rw current (queue ∙ ap (λ rest. f ∷ rest) (sym (same ∙ ap pop_front queue)), next)

-- `t` is `s` after payloads were queued and writes ended without an error, in any order. `queued` are
-- the frames of the payloads, and `done` the bytes of the writes that ended.
pub data Writes (g : ℕ) (s : State) : State → List (List ℕ) → List (List ℕ) → Type 0 where
  nothing_yet : Writes g s s [] []
  then_queued :
      {t : State} {queued done : List (List ℕ)} (payload : List ℕ)
      → Writes g s t queued done
      → Writes g s (queue_message payload t) (queued ++ frame payload ∷ []) done
  then_ended :
      {t : State} {queued done : List (List ℕ)} (p q : List Operation) (f : List ℕ)
      → Writes g s t queued done
      → t.pending ≡ p ++ Operation.write g f ∷ q
      → Writes g s (on_write g none (without t p q)) queued (done ++ f ∷ [])

-- Whatever the order in which payloads are queued and writes end, on a connection without a write
-- in flight at first: the writes that ended, followed by the queue, are the frames of the payloads
-- in the order in which they were queued; and while a write is in progress it is that of the
-- queue's front.
pub Writes-fifo :
    (g : ℕ) (s t : State) (queued done : List (List ℕ))
    → Writing g s
    → s.write_queue ≡ []
    → Writes g s t queued done
    → (done ++ t.write_queue ≡ queued) × Writing g t
Writes-fifo g s _ _ _ w empty nothing_yet = (empty, w)
Writes-fifo g s _ queued done w empty (then_queued {t = t} {queued = before} payload run) =
    let (order, writing) = Writes-fifo g s t before done w empty run in
    let (after, queue) = queue_message-Writing g t payload writing in
    (
      ap (λ rest. done ++ rest) queue
          ∙ sym (append_assoc done t.write_queue (frame payload ∷ []))
          ∙ ap (λ front. front ++ frame payload ∷ []) order,
      after,
    )
Writes-fifo g s _ queued _ w empty (then_ended {t = t} {done = before} p q f run e) =
    let (order, writing) = Writes-fifo g s t queued before w empty run in
    let (queue, after) = on_write-Writing g t p q f writing e in
    (append_assoc before (f ∷ []) _ ∙ ap (λ rest. before ++ rest) (sym queue) ∙ order, after)
