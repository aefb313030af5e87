-- ===== src/Engine/Opening.antt =====
-- The loop of `Db::open` (moltendb-core/src/engine/open.rs) over the collections that were replayed.
pub mod Counter
use molten_db.Prelude.{ℕ, ◌+◌, ◌%◌, ◌^◌, [], ◌∷◌, Bytes, Option, Str, ltb, if◌then◌else◌}
use molten_db.Prelude.Map.{Map}
use molten_db.Codec.Token.{read_msgpack_seq_token}
use molten_db.Engine.SeqIndex
use molten_db.Engine.SeqIndex.{SeqIndex}

module _ (skip : Bytes → Option Bytes) where
  -- The index and the greatest number, from those of the documents before.
  unfoldable pub scan_documents : SeqIndex → ℕ → Map Str Bytes → SeqIndex × ℕ
  unfolding SeqIndex.insert read_msgpack_seq_token
  scan_documents btree max_seq [] = (btree, max_seq)
  scan_documents btree max_seq ((key, bytes) ∷ col) =
      let seq = read_msgpack_seq_token skip bytes in
      scan_documents (SeqIndex.insert seq key btree) (if ltb max_seq seq then seq else max_seq) col

  -- The index of a collection and its counter; a build without overflow checks wraps around.
  unfoldable pub open_collection : Map Str Bytes → SeqIndex × ℕ
  unfolding scan_documents
  open_collection col =
      let (btree, max_seq) = scan_documents [] 0 col in (btree, (max_seq + 1) % 2 ^ 64)
