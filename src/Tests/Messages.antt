-- ===== src/Tests/Messages.antt =====
-- The protocol's messages at concrete values.
use androidtvremote_native.Common.{
  ◌%◌, ◌^◌, not, ◌==◌, ◌≡◌, refl, true, some, [], ◌∷◌, ◌++◌, codes, arith,
}
use androidtvremote_native.Wire.Writer.{message_field}
use androidtvremote_native.Wire.Message.{number, bytes, write}
use androidtvremote_native.Wire.Message.Nested.{varint_at, bytes_at}
use androidtvremote_native.Protocol.Outgoing.{remote_text}
use androidtvremote_native.Protocol.Outgoing.Contents.{remote_text_contents}
use androidtvremote_native.Protocol.Incoming.{Kind, incoming, parse_remote}
use androidtvremote_native.Protocol.Incoming.Items.{
  parse_remote_first_case, parse_remote_volume, parse_remote_configure, parse_remote_numbers,
}

remote_text_contents_example :
    (varint_at (remote_text (codes "news") 3 4) (21 ∷ []) 1 ≡ some 3)
    × (varint_at (remote_text (codes "news") 3 4) (21 ∷ []) 2 ≡ some 4)
    × (bytes_at (remote_text (codes "news") 3 4) (21 ∷ 3 ∷ 2 ∷ []) 3 ≡ some (codes "news"))
    × (varint_at (remote_text (codes "news") 3 4) (21 ∷ 3 ∷ 2 ∷ []) 1 ≡ some 3)
    × (varint_at (remote_text (codes "news") 3 4) (21 ∷ 3 ∷ 2 ∷ []) 2 ≡ some 3)
remote_text_contents_example =
    remote_text_contents (codes "news") 3 4 (omega arith) (omega arith) (omega arith) (omega arith)

parse_remote_first_case_example :
    parse_remote (write [] (number 1 5 ∷ bytes 7 [] ∷ [] ++ bytes 8 (8 ∷ 3 ∷ []) ∷ bytes 3 [] ∷ []))
    ≡ parse_remote (write [] (bytes 8 (8 ∷ 3 ∷ []) ∷ []))
parse_remote_first_case_example =
    parse_remote_first_case (number 1 5 ∷ bytes 7 [] ∷ []) (bytes 3 [] ∷ []) 8 (8 ∷ 3 ∷ [])
      (tt, (refl, tt)) (omega arith) (omega arith) refl

parse_remote_volume_example :
    parse_remote (message_field [] 50 (write [] (number 6 100 ∷ number 7 25 ∷ number 8 1 ∷ [])))
    ≡ record incoming {
      kind = Kind.volume;
      volume = record { level = 25; maximum = 100; muted = true };
    }
parse_remote_volume_example = parse_remote_volume 100 25 1 (omega arith) (omega arith) (omega arith)

parse_remote_configure_example :
    parse_remote (
      message_field [] 1 (
        write [] (
          number 1 622
          ∷ bytes 2 (
              write []
                (bytes 1 (codes "TV1") ∷ bytes 2 (codes "Maker") ∷ bytes 6 (codes "11") ∷ []))
          ∷ [])))
    ≡ record incoming {
      kind = Kind.configure;
      supported_features = 622;
      device_info = record {
        manufacturer = codes "Maker";
        model = codes "TV1";
        software_version = codes "11";
      };
    }
parse_remote_configure_example =
    parse_remote_configure 622 (codes "TV1") (codes "Maker") (codes "11") (omega arith)
      (omega arith) (omega arith) (omega arith)

parse_remote_numbers_example :
    (parse_remote (message_field [] 8 (write [] (number 1 7 ∷ [])))
      ≡ record incoming { kind = Kind.ping; ping_value = 7 % 2 ^ 32 })
    × (parse_remote (message_field [] 30 (write [] (number 1 7 ∷ [])))
        ≡ record incoming { kind = Kind.voice_begin; voice_session_id = 7 % 2 ^ 32 })
    × (parse_remote (message_field [] 40 (write [] (number 1 7 ∷ [])))
        ≡ record incoming { kind = Kind.start; started = not (7 == 0) })
    × (parse_remote (message_field [] 21 (write [] (number 1 7 ∷ number 2 8 ∷ [])))
        ≡ record incoming {
          kind = Kind.ime_batch_edit;
          ime_counter = 7 % 2 ^ 32;
          field_counter = 8 % 2 ^ 32;
        })
parse_remote_numbers_example = parse_remote_numbers 7 8 (omega arith) (omega arith)
