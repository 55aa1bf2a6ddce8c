-- ===== src/Pairing/Streams.antt =====
-- The life of a `SyncTlsConnection`: its stream is made, connected and closed. The calls of Asio on
-- streams are a parameter.
use androidtvremote_native.Common.{
  ℕ, ◌≡◌, refl, sym, ap, ◌∙◌, Bool, true, false, not, ◌&&◌, Option, none, some, List, ◌==◌, ==_iff,
  Bool-cases, inl, inr,
}
use androidtvremote_native.Common.Results.{Result, ok, err}
use androidtvremote_native.Pairing.{Connection}

-- A stream has a number. `create` makes one, `resolve` finds the endpoints of a host and a port,
-- `connect` connects the stream's socket to one of them, and `handshake` ends with what the
-- television sends on the connection. The errors of `shutdown` and of `close` are ignored.
pub record Streams : Type 1 where
  pub World : Type 0
  pub Endpoints : Type 0
  pub is_open : World → ℕ → Bool
  pub create : World → ℕ × World
  pub resolve : List ℕ → ℕ → World → World × Result Endpoints
  pub connect : ℕ → Endpoints → World → World × Result (Unit {0})
  pub handshake : ℕ → World → World × Result Connection
  pub shutdown : ℕ → World → World
  pub close : ℕ → World → World

-- What is relied on: a new stream is not open, a call on a stream leaves the others as they are, a
-- stream that was connected is open until it is closed.
pub record IsLawful (streams : Streams) : Type 0 where
  pub open-create :
      (w : streams.World) (i : ℕ) → streams.is_open (streams.create w).1 i ≡ streams.is_open w i
  pub create_fresh : (w : streams.World) → streams.is_open w (streams.create w).0 ≡ false
  pub open-resolve :
      (host : List ℕ) (port : ℕ) (w : streams.World) (i : ℕ)
      → streams.is_open (streams.resolve host port w).0 i ≡ streams.is_open w i
  pub open-connect :
      (s : ℕ) (e : streams.Endpoints) (w : streams.World)
      → (streams.connect s e w).1 ≡ ok tt
      → streams.is_open (streams.connect s e w).0 s ≡ true
  pub open-connect_ne :
      (s : ℕ) (e : streams.Endpoints) (w : streams.World) (i : ℕ)
      → (i == s) ≡ false
      → streams.is_open (streams.connect s e w).0 i ≡ streams.is_open w i
  pub open-handshake :
      (s : ℕ) (w : streams.World) (i : ℕ)
      → streams.is_open (streams.handshake s w).0 i ≡ streams.is_open w i
  pub open-shutdown :
      (s : ℕ) (w : streams.World) (i : ℕ)
      → streams.is_open (streams.shutdown s w) i ≡ streams.is_open w i
  pub open-close :
      (s : ℕ) (w : streams.World) (i : ℕ)
      → streams.is_open (streams.close s w) i ≡ (not (i == s) && streams.is_open w i)

module _ (streams : Streams) where
  open streams use {World, Endpoints, is_open}

  -- `SyncTlsConnection::close`, for a connection that has a stream.
  abbrev pub close : ℕ → World → World
  close s w = streams.close s (streams.shutdown s w)

  abbrev pub shaken : ℕ → World × Result (Unit {0}) → World × Result Connection
  shaken s (w, err e) = (w, err e)
  shaken s (w, ok _) = streams.handshake s w

  abbrev pub resolved : ℕ → World × Result Endpoints → World × Result Connection
  resolved s (w, err e) = (w, err e)
  resolved s (w, ok endpoints) = shaken s (streams.connect s endpoints w)

  -- `SyncTlsConnection::connect`.
  unfoldable pub connect : List ℕ → ℕ → ℕ → World → World × Result Connection
  connect host port s w = resolved s (streams.resolve host port w)

  -- The constructor, whose loading of the identity ends with `identity`, and then `connect`: the
  -- stream, if it was made.
  abbrev pub make : List ℕ → ℕ → Result (Unit {0}) → World → (World × Option ℕ) × Result Connection
  make host port (err e) w = ((w, none), err e)
  make host port (ok _) w =
      let (s, v) = streams.create w in
      let (u, result) = connect host port s v in ((u, some s), result)

  -- The destructor of a connection, where there is one.
  abbrev pub drop : Option ℕ → World → World
  drop none w = w
  drop (some s) w = close s w

  -- The stream is the one that is held.
  abbrev pub holds : Option ℕ → ℕ → Bool
  holds none i = false
  holds (some s) i = i == s

  -- Exactly the stream that is held is open.
  abbrev pub Holds : Option ℕ → World → Type 0
  Holds o w = (i : ℕ) → is_open w i ≡ holds o i

  module _ (lawful : IsLawful streams) where
    open-close : (s : ℕ) (w : World) (i : ℕ) → is_open (close s w) i ≡ (not (i == s) && is_open w i)
    open-close s w i =
        lawful.open-close s (streams.shutdown s w) i
        ∙ ap (λ b. not (i == s) && b) (lawful.open-shutdown s w i)

    shaken_ne : (s i : ℕ) (o : World × Result (Unit {0})) → is_open (shaken s o).0 i ≡ is_open o.0 i
    shaken_ne s i (w, err e) = refl
    shaken_ne s i (w, ok _) = lawful.open-handshake s w i

    resolved_ne :
        (s i : ℕ) (o : World × Result Endpoints)
        → (i == s) ≡ false
        → is_open (resolved s o).0 i ≡ is_open o.0 i
    resolved_ne s i (w, err e) h = refl
    resolved_ne s i (w, ok endpoints) h =
        shaken_ne s i (streams.connect s endpoints w) ∙ lawful.open-connect_ne s endpoints w i h

    connect_ne :
        (host : List ℕ) (port s i : ℕ) (w : World)
        → (i == s) ≡ false
        → is_open (connect host port s w).0 i ≡ is_open w i
    unfolding connect
    connect_ne host port s i w h =
        resolved_ne s i (streams.resolve host port w) h ∙ lawful.open-resolve host port w i

    shaken_open :
        (s : ℕ) (o : World × Result (Unit {0})) (c : Connection)
        → (o.1 ≡ ok tt → is_open o.0 s ≡ true)
        → (shaken s o).1 ≡ ok c
        → is_open (shaken s o).0 s ≡ true
    shaken_open s (w, err e) c h eq = cc
    shaken_open s (w, ok _) c h eq = lawful.open-handshake s w s ∙ h refl

    resolved_open :
        (s : ℕ) (o : World × Result Endpoints) (c : Connection)
        → (resolved s o).1 ≡ ok c
        → is_open (resolved s o).0 s ≡ true
    resolved_open s (w, err e) c eq = cc
    resolved_open s (w, ok endpoints) c eq =
        shaken_open s (streams.connect s endpoints w) c (lawful.open-connect s endpoints w) eq

    -- Whatever it ends with, a connection that is made and destroyed leaves the streams as they were.
    pub drop-make :
        (host : List ℕ) (port : ℕ) (identity : Result (Unit {0})) (w : World) (i : ℕ)
        → let made = make host port identity w in is_open (drop made.0.1 made.0.0) i ≡ is_open w i
    drop-make host port (err e) w i = refl
    drop-make host port (ok _) w i =
        let s = (streams.create w).0 in
        let v = (streams.create w).1 in
        let u = (connect host port s v).0 in
        open-close s u i ∙ elim (Bool-cases (i == s)) [
          | inl same ↦
              ap (λ b. not b && is_open u i) same
              ∙ sym (lawful.create_fresh w)
              ∙ ap (is_open w) (sym ((==_iff i s).0 same))
          | inr other ↦
              ap (λ b. not b && is_open u i) other
              ∙ connect_ne host port s i v other
              ∙ lawful.open-create w i
        ]

    open-drop :
        (o : Option ℕ) (w : World) (i : ℕ) → is_open (drop o w) i ≡ (not (holds o i) && is_open w i)
    open-drop none w i = refl
    open-drop (some s) w i = open-close s w i

    not_and_self : (b : Bool) → (not b && b) ≡ false
    not_and_self true = refl
    not_and_self false = refl

    -- The stream that was held, dropped: nothing is open.
    pub drop-Holds : (o : Option ℕ) (w : World) → Holds o w → Holds none (drop o w)
    drop-Holds o w h i =
        open-drop o w i ∙ ap (λ b. not (holds o i) && b) (h i) ∙ not_and_self (holds o i)

    -- A connection that was made, in place of the one that was held.
    pub make-Holds :
        (host : List ℕ) (port : ℕ) (identity : Result (Unit {0})) (o : Option ℕ) (w : World)
        (c : Connection)
        → Holds o w
        → let made = make host port identity w in made.1 ≡ ok c → Holds made.0.1 (drop o made.0.0)
    unfolding connect
    make-Holds host port (err e) o w c h eq i = cc
    make-Holds host port (ok _) o w c h eq i =
        let s = (streams.create w).0 in
        let v = (streams.create w).1 in
        let u = (connect host port s v).0 in
        open-drop o u i ∙ elim (Bool-cases (i == s)) [
          | inl same ↦
              let is_s = (==_iff i s).0 same in
              let old : holds o i ≡ false =
                sym (h i) ∙ ap (is_open w) is_s ∙ lawful.create_fresh w in
              ap (λ b. not b && is_open u i) old
              ∙ ap (is_open u) is_s
              ∙ resolved_open s (streams.resolve host port v) c eq
              ∙ sym same
          | inr other ↦
              let left : is_open u i ≡ holds o i =
                connect_ne host port s i v other ∙ lawful.open-create w i ∙ h i in
              ap (λ b. not (holds o i) && b) left ∙ not_and_self (holds o i) ∙ sym other
        ]
