-- ===== src/Message/Header/Lookup.antt =====
-- Lookups in the map that `decodeHeader` makes of a header, key by key.
use pod_os_go_client.Prelude.{
  ◌≡◌, refl, ◌∙◌, Bool, true, false, not, ◌&&◌, Option, none, some, List, [], ◌∷◌, ◌++◌, arith,
  Bytes, codes, str_eq,
}
use pod_os_go_client.Message.Header.Decode.{last_entry}
use pod_os_go_client.Message.Header.{Slot, written}
use pod_os_go_client.Wire.Decoder.{command_of, HeaderMap, lookup, mime_type_of}
use pod_os_go_client.Wire.Decoder.Header.{set_all}

-- No field of these has the key.
abbrev pub absent : Bytes → HeaderMap → Bool
absent k [] = true
absent k ((j, v) ∷ es) = not (str_eq j k) && absent k es

abbrev pub absent_slots : Bytes → List Slot → Bool
absent_slots k [] = true
absent_slots k ((j, o) ∷ ss) = not (str_eq j k) && absent_slots k ss

pub lookup-set_all :
    (k : Bytes) (es m : HeaderMap) → absent k es ≡ true → lookup k (set_all m es) ≡ lookup k m
unfolding lookup
lookup-set_all k [] m e = refl
lookup-set_all k ((j, v) ∷ es) m e =
    let other : str_eq j k ≡ false = ground arith in
    let rest : absent k es ≡ true = ground arith in
    lookup-set_all k es ((j, v) ∷ m) rest ∙ rw other refl

absent-written :
    (k : Bytes) (ss : List Slot) → absent_slots k ss ≡ true → absent k (written ss) ≡ true
unfolding written
absent-written k [] e = refl
absent-written k ((j, none) ∷ ss) e =
    let rest : absent_slots k ss ≡ true = ground arith in absent-written k ss rest
absent-written k ((j, some v) ∷ ss) e =
    let other : str_eq j k ≡ false = ground arith in
    let rest : absent_slots k ss ≡ true = ground arith in rw other (absent-written k ss rest)

absent-append :
    (k : Bytes) (es fs : HeaderMap)
    → absent k es ≡ true
    → absent k fs ≡ true
    → absent k (es ++ fs) ≡ true
absent-append k [] fs e f = f
absent-append k ((j, v) ∷ es) fs e f =
    let other : str_eq j k ≡ false = ground arith in
    let rest : absent k es ≡ true = ground arith in rw other (absent-append k es fs rest f)

-- None of the keys that `DecodeMessage` looks a command up by.
abbrev pub no_command : List Slot → Bool
no_command ss =
    absent_slots (codes "_type") ss
    && (absent_slots (codes "_command") ss && absent_slots (codes "_db_cmd") ss)

pub absent-rest :
    (k : Bytes) (ss : List Slot) (o : Option Bytes)
    → absent_slots k ss ≡ true
    → str_eq (codes "_msg_id") k ≡ false
    → absent k (written ss ++ last_entry o) ≡ true
absent-rest k ss none e f = absent-append k (written ss) [] (absent-written k ss e) refl
absent-rest k ss (some v) e f =
    absent-append k (written ss) ((codes "_msg_id", v) ∷ []) (absent-written k ss e) (rw f refl)

-- A header without a MIME type.
pub mime_type_of-set_all :
    (ss : List Slot) (o : Option Bytes)
    → absent_slots (codes "mime") ss ≡ true
    → absent_slots (codes "_mimetype") ss ≡ true
    → mime_type_of (set_all [] (written ss ++ last_entry o)) ≡ []
unfolding lookup
mime_type_of-set_all ss o a b =
    let rest = written ss ++ last_entry o in
    rw (lookup-set_all (codes "mime") rest [] (absent-rest _ ss o a refl))
      (rw (lookup-set_all (codes "_mimetype") rest [] (absent-rest _ ss o b refl)) refl)

pub command_of-set_all :
    (c : Bytes) (ss : List Slot) (o : Option Bytes)
    → no_command ss ≡ true
    → command_of (set_all ((codes "_db_cmd", c) ∷ []) (written ss ++ last_entry o)) ≡ c
unfolding command_of lookup
command_of-set_all c ss o e =
    let t : absent_slots (codes "_type") ss ≡ true = ground arith in
    let n : absent_slots (codes "_command") ss ≡ true = ground arith in
    let d : absent_slots (codes "_db_cmd") ss ≡ true = ground arith in
    let rest = written ss ++ last_entry o in
    rw (lookup-set_all (codes "_type") rest ((codes "_db_cmd", c) ∷ []) (absent-rest _ ss o t refl))
      (rw
        (lookup-set_all (codes "_command") rest ((codes "_db_cmd", c) ∷ [])
          (absent-rest _ ss o n refl))
        (rw
          (lookup-set_all (codes "_db_cmd") rest ((codes "_db_cmd", c) ∷ [])
            (absent-rest _ ss o d refl))
          refl))
