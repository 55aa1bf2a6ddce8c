-- ===== src/Remote/Invariant/Taking.antt =====
-- What is left of the invariant when an operation has ended and its handler begins.
use androidtvremote_native.Common.{
  ℕ, ◌+◌, ◌<◌, ◌≡◌, ap, ◌∙◌, true, false, List, [], ◌∷◌, ◌++◌, length, arith,
}
use androidtvremote_native.Remote.State.{State, Operation}
use androidtvremote_native.Remote.Machine.{without}
use androidtvremote_native.Remote.Counts.{
  one, is_read, is_write, is_above, reads, writes, above, reads-end, writes-end, above-end,
}
use androidtvremote_native.Remote.Invariant.{Inv, Sound}

module _ (s : State) (p q : List Operation) (o : Operation) (v : Sound s)
    (e : s.pending ≡ p ++ o ∷ q) where
  abbrev g : ℕ
  g = s.generation

  reads_left : reads g s.pending ≡ reads g (p ++ q) + one (is_read g o)
  reads_left = ap (reads g) e ∙ reads-end g p q o

  writes_left : writes g s.pending ≡ writes g (p ++ q) + one (is_write g o)
  writes_left = ap (writes g) e ∙ writes-end g p q o

  above_left : above g s.pending ≡ above g (p ++ q) + one (is_above g o)
  above_left = ap (above g) e ∙ above-end g p q o

  -- A timer, or an operation of an old connection.
  pub stale-Sound : is_read g o ≡ false → is_write g o ≡ false → Sound (without s p q)
  stale-Sound r w = ground (arith, v.inv, reads_left, writes_left, above_left)

  -- The one operation that carried the connection forward.
  pub read_taken :
      is_read g o ≡ true → is_write g o ≡ false → Inv 0 (without s p q) × (s.stream ≡ true)
  read_taken r w = ground (arith, v.inv, reads_left, writes_left, above_left)

  -- The write in progress: it was the front of a queue that is not empty.
  pub write_taken :
      is_write g o ≡ true
      → is_read g o ≡ false
      → Inv
          (reads g s.pending)
          (record (without s p q) { write_in_progress = false; write_queue = [] })
        × (0 < length s.write_queue)
        × (s.stream ≡ true)
  write_taken w r = ground (arith, v.inv, reads_left, writes_left, above_left)
