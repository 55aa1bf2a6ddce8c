-- ===== src/Protocol/Incoming/Items.antt =====
-- `parseRemote` on messages that a writer made: which field decides, and what is read from it.
use androidtvremote_native.Common.{
  ℕ, ◌%◌, ◌<◌, ◌^◌, ◌≡◌, ◌≢◌, refl, Bool, true, false, not, ◌||◌, Option, none, some, List, [], ◌∷◌,
  ◌++◌, length, ◌==◌, All, ◌∙◌, ap, sym, append-nil, arith,
}
use androidtvremote_native.Wire.Types.{IsU32, IsU64}
use androidtvremote_native.Wire.Writer.{message_field}
use androidtvremote_native.Wire.Search.{out_of_fuel, scan_message}
use androidtvremote_native.Wire.Search.Loop.{scan_message-ne-out_of_fuel}
use androidtvremote_native.Wire.Message.{Item, number, bytes, IsItem, write, weight, or_else, first}
use androidtvremote_native.Wire.Message.RoundTrip.{
  scan_message-write, find_varint-write, find_bytes-write,
}
use androidtvremote_native.Wire.Message.Nested.{length-write-le-weight}
use androidtvremote_native.Protocol.Incoming.{
  Kind, RemoteIncoming, incoming, parse_body, visit_remote, or_unknown, parse_remote,
  parse_configure, parse_ping, parse_ime_key_inject, parse_ime_batch_edit, parse_voice_begin,
  parse_start, parse_volume,
}

-- The field numbers of `RemoteMessage` that `parseRemote` has a case for.
abbrev pub is_case : ℕ → Bool
is_case n =
    n == 1 || n == 2 || n == 3 || n == 8 || n == 20 || n == 21 || n == 30 || n == 40 || n == 50

-- A field that the loop passes over: a number, or bytes with no case.
abbrev pub IsSkipped : Item → Type 0
IsSkipped (number n v) = Unit {0}
IsSkipped (bytes n value) = is_case n ≡ false

parse_body_skipped : (n : ℕ) (body : List ℕ) → is_case n ≡ false → parse_body n body ≡ none
unfolding parse_body
parse_body_skipped n body h = ground arith

parse_body-ne-none : (n : ℕ) (body : List ℕ) → is_case n ≡ true → parse_body n body ≢ none
unfolding parse_body
parse_body-ne-none n body h = λ e. ground arith

first_skipped :
    (skipped is : List Item)
    → All IsSkipped skipped
    → first visit_remote (skipped ++ is) ≡ first visit_remote is
first_skipped [] is h = refl
first_skipped (number n v ∷ skipped) is (h, hs) = first_skipped skipped is hs
first_skipped (bytes n value ∷ skipped) is (h, hs) =
    rw (parse_body_skipped n value h) (first_skipped skipped is hs)

or_else_decided {ℓ} : {A : Type ℓ} (o p : Option A) → o ≢ none → or_else o p ≡ or_else o none
or_else_decided none p h = absurd (h refl)
or_else_decided (some a) p h = refl

parse_remote-write :
    (is : List Item)
    → All IsItem is
    → parse_remote (write [] is) ≡ or_unknown (first visit_remote is)
unfolding parse_remote
parse_remote-write is h = ap or_unknown (scan_message-write visit_remote is h)

-- On a message of well-formed items the first field that has a case in `parseRemote` decides: what
-- stands before it and has none, and all that follows it, makes no difference.
pub parse_remote_first_case :
    (skipped is : List Item) (n : ℕ) (body : List ℕ)
    → All IsSkipped skipped
    → All IsItem (skipped ++ bytes n body ∷ is)
    → IsItem (bytes n body)
    → is_case n ≡ true
    → parse_remote (write [] (skipped ++ bytes n body ∷ is))
      ≡ parse_remote (write [] (bytes n body ∷ []))
parse_remote_first_case skipped is n body hs ok okn hn =
    parse_remote-write (skipped ++ bytes n body ∷ is) ok
    ∙ ap or_unknown (
        first_skipped skipped (bytes n body ∷ is) hs
        ∙ or_else_decided (parse_body n body) (first visit_remote is)
            (parse_body-ne-none n body hn))
    ∙ sym (parse_remote-write (bytes n body ∷ []) (okn, tt))

-- A message of well-formed items none of which has a case is reported as unknown, with every member
-- at its initial value.
parse_remote_skipped :
    (skipped : List Item)
    → All IsSkipped skipped
    → All IsItem skipped
    → parse_remote (write [] skipped) ≡ incoming
parse_remote_skipped skipped hs ok =
    parse_remote-write skipped ok
    ∙ ap or_unknown
        (ap (first visit_remote) (sym (append-nil skipped)) ∙ first_skipped skipped [] hs)

-- A message that holds one message, of a kind that has a case.
module _ (n : ℕ) (is : List Item) (pos : 0 < n) (small : IsU32 n) (ok : All IsItem is)
    (light : weight is < 2 ^ 63) where
  parse_remote-message :
      parse_remote (message_field [] n (write [] is)) ≡ or_unknown (parse_body n (write [] is))
  unfolding message_field
  parse_remote-message =
      let short = length-write-le-weight is ok in
      parse_remote-write (bytes n (write [] is) ∷ []) (omega (arith, short))
      ∙ ap or_unknown (go (parse_body n (write [] is)))
    where
      go : (o : Option RemoteIncoming) → or_else o none ≡ o
      go none = refl
      go (some m) = refl

-- The television's volume is read from the fields 6, 7 and 8 of its message: a maximum and a level
-- of 32 bits, and a number of 64 bits that is not 0 if it is muted.
pub parse_remote_volume :
    (maximum level muted : ℕ)
    → IsU32 maximum
    → IsU32 level
    → IsU64 muted
    → parse_remote
        (message_field [] 50 (write [] (number 6 maximum ∷ number 7 level ∷ number 8 muted ∷ [])))
      ≡ record incoming {
        kind = Kind.volume;
        volume = record { level = level; maximum = maximum; muted = not (muted == 0) };
      }
unfolding parse_body parse_volume
parse_remote_volume maximum level muted hm hl hu =
    let is : List Item = number 6 maximum ∷ number 7 level ∷ number 8 muted ∷ [] in
    let ok : All IsItem is = omega arith in
    parse_remote-message 50 is (omega arith) (omega arith) ok (omega arith)
    ∙ rw (find_varint-write is 6 ok, find_varint-write is 7 ok, find_varint-write is 8 ok)
        (ground arith)

-- A configuration message, whose features fit in 64 bits and whose texts are shorter than 4 GiB, is
-- read as the features' low 32 bits and the device's model, vendor and version.
pub parse_remote_configure :
    (features : ℕ) (model vendor version : List ℕ)
    → IsU64 features
    → length model < 2 ^ 32
    → length vendor < 2 ^ 32
    → length version < 2 ^ 32
    → parse_remote (
        message_field [] 1 (
          write [] (
            number 1 features
            ∷ bytes 2 (write [] (bytes 1 model ∷ bytes 2 vendor ∷ bytes 6 version ∷ []))
            ∷ [])))
      ≡ record incoming {
        kind = Kind.configure;
        supported_features = features % 2 ^ 32;
        device_info = record { manufacturer = vendor; model = model; software_version = version };
      }
unfolding parse_body parse_configure
parse_remote_configure features model vendor version hf hm hv hr =
    let info : List Item = bytes 1 model ∷ bytes 2 vendor ∷ bytes 6 version ∷ [] in
    let ok : All IsItem info = omega arith in
    let short = length-write-le-weight info ok in
    let is : List Item = number 1 features ∷ bytes 2 (write [] info) ∷ [] in
    let oks : All IsItem is = omega (arith, short) in
    parse_remote-message 1 is (omega arith) (omega arith) oks (omega (arith, short))
    ∙ rw (find_varint-write is 1 oks, find_bytes-write is 2 oks)
        (rw (find_bytes-write info 1 ok, find_bytes-write info 2 ok, find_bytes-write info 6 ok))

-- The messages that carry one or two numbers of 64 bits: a ping, the begin of a voice session and
-- the counters of an edit are read as the low 32 bits, the start as whether the number is not 0.
pub parse_remote_numbers :
    (value counter : ℕ)
    → IsU64 value
    → IsU64 counter
    → (parse_remote (message_field [] 8 (write [] (number 1 value ∷ [])))
        ≡ record incoming { kind = Kind.ping; ping_value = value % 2 ^ 32 })
      × (parse_remote (message_field [] 30 (write [] (number 1 value ∷ [])))
          ≡ record incoming { kind = Kind.voice_begin; voice_session_id = value % 2 ^ 32 })
      × (parse_remote (message_field [] 40 (write [] (number 1 value ∷ [])))
          ≡ record incoming { kind = Kind.start; started = not (value == 0) })
      × (parse_remote (message_field [] 21 (write [] (number 1 value ∷ number 2 counter ∷ [])))
          ≡ record incoming {
            kind = Kind.ime_batch_edit;
            ime_counter = value % 2 ^ 32;
            field_counter = counter % 2 ^ 32;
          })
unfolding parse_body parse_ping parse_voice_begin parse_start parse_ime_batch_edit
parse_remote_numbers value counter hv hc =
    let one : List Item = number 1 value ∷ [] in
    let ok : All IsItem one = omega arith in
    let two : List Item = number 1 value ∷ number 2 counter ∷ [] in
    let oks : All IsItem two = omega arith in
    (
      parse_remote-message 8 one (omega arith) (omega arith) ok (omega arith)
          ∙ rw (find_varint-write one 1 ok),
      parse_remote-message 30 one (omega arith) (omega arith) ok (omega arith)
          ∙ rw (find_varint-write one 1 ok),
      parse_remote-message 40 one (omega arith) (omega arith) ok (omega arith)
          ∙ rw (find_varint-write one 1 ok),
      parse_remote-message 21 two (omega arith) (omega arith) oks (omega arith)
          ∙ rw (find_varint-write two 1 oks, find_varint-write two 2 oks),
    )

-- The app in the foreground, if its name is shorter than 4 GiB, is field 12 of the message under
-- field 1.
parse_remote_app :
    (package_name : List ℕ)
    → length package_name < 2 ^ 32
    → parse_remote
        (message_field [] 20 (write [] (bytes 1 (write [] (bytes 12 package_name ∷ [])) ∷ [])))
      ≡ record incoming { kind = Kind.ime_key_inject; current_app = package_name }
unfolding parse_body parse_ime_key_inject
parse_remote_app package_name h =
    let info : List Item = bytes 12 package_name ∷ [] in
    let ok : All IsItem info = omega arith in
    let short = length-write-le-weight info ok in
    let is : List Item = bytes 1 (write [] info) ∷ [] in
    let oks : All IsItem is = omega (arith, short) in
    parse_remote-message 20 is (omega arith) (omega arith) oks (omega (arith, short))
    ∙ rw (find_bytes-write is 1 oks) (rw (find_bytes-write info 12 ok))

-- On any bytes at all the loop of `parseRemote` ends.
pub parse_remote_ends : (message : List ℕ) → scan_message visit_remote message ≢ out_of_fuel
parse_remote_ends message = scan_message-ne-out_of_fuel visit_remote message
