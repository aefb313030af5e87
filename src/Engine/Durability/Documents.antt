-- ===== src/Engine/Durability/Documents.antt =====
-- What each entry of a log does to the documents that can be looked up.
use molten_db.Prelude.{
  ◌≡◌, ◌&&◌, none, some, arith, Bytes, Str, str_beq, str_eq, str_beq_iff, if◌then◌else◌,
  Option-cases, inl, inr,
}
use molten_db.Prelude.Map
use molten_db.Prelude.Map.{Map}
use molten_db.Json.{Value}
use molten_db.Codec.Write.{value_to_msgpack}
use molten_db.Wal.Replay.{Memory, put_document, remove_document, drop_collection, collection_of}
use molten_db.Engine.State.{document}

pub document-insert :
    (state : Map Str (Map Str Bytes)) (c : Str) (col : Map Str Bytes) (c' k' : Str)
    → document (Map.insert c col state) c' k'
      ≡ (if str_beq c c' then Map.get col k' else document state c' k')
unfolding document
document-insert state c col c' k' = ground (arith, Map.get-insert c c' col state)

pub document-remove :
    (state : Map Str (Map Str Bytes)) (c c' k' : Str)
    → document (Map.remove c state) c' k' ≡ (if str_beq c c' then none else document state c' k')
unfolding document
document-remove state c c' k' = ground (arith, Map.get-remove c c' state)

document-collection :
    (state : Map Str (Map Str Bytes)) (c k : Str)
    → Map.get (collection_of state c) k ≡ document state c k
unfolding document Map.get
document-collection state c k = ground arith

-- A document that is put is found under its names, and every other one as before.
pub document-put_document :
    (c k : Str) (v : Value) (m : Memory) (c' k' : Str)
    → document (put_document c k v m).state c' k'
      ≡ (if str_beq c c' && str_beq k k' then some (value_to_msgpack v) else document m.state c' k')
unfolding put_document
document-put_document c k v m c' k' = ground (
  arith,
  document-insert m.state c (Map.insert k (value_to_msgpack v) (collection_of m.state c)) c' k',
  Map.get-insert k k' (value_to_msgpack v) (collection_of m.state c),
  document-collection m.state c k',
  str_beq_iff c c',
)

-- A document that is removed is not found, and every other one as before.
pub document-remove_document :
    (c k : Str) (m : Memory) (c' k' : Str)
    → document (remove_document c k m).state c' k'
      ≡ (if str_beq c c' && str_beq k k' then none else document m.state c' k')
unfolding remove_document document
document-remove_document c k m c' k' = elim (Option-cases (Map.get m.state c)) [
  | inl h ↦ ground (arith, h, str_beq_iff c c')
  | inr (col, h) ↦ ground (
    arith,
    h,
    str_beq_iff c c',
    Map.get-insert c c' (Map.remove k col) m.state,
    Map.get-remove k k' col,
  )
]

-- A dropped collection holds no documents, and every other one what it held.
pub document-drop_collection :
    (c : Str) (m : Memory) (c' k' : Str)
    → document (drop_collection c m).state c' k'
      ≡ (if str_beq c c' then none else document m.state c' k')
unfolding drop_collection
document-drop_collection c m c' k' = document-remove m.state c c' k'
