-- ===== src/Tests/Engine.antt =====
-- The operations of the engine on a small database.
use molten_db.Prelude.{
  ◌≡◌, refl, Bool, true, none, some, List, [], ◌∷◌, ◌++◌, codes, Str, str_beq, str_eq, ◌&&◌,
  if◌then◌else◌,
}
use molten_db.Prelude.Map
use molten_db.Json.{Value, object, end, field, number, pos_int, null, Fields}
use molten_db.Json.Object
use molten_db.Json.Numeric
use molten_db.Codec.SystemFields
use molten_db.Codec.Marker
use molten_db.Codec.Read
use molten_db.Codec.Read.{msgpack_to_value}
use molten_db.Codec.Write.{value_to_msgpack, write_value, write_map_header}
use molten_db.Wal.Command
use molten_db.Wal.Replay.{
  replay_step, apply_all, apply_entry, is_active, put_document, stream_into_state, replay_from,
}
use molten_db.Engine.Types.{ok, err, conflict}
use molten_db.Engine.Op.{for_each}
use molten_db.Engine.State.{
  World, Db, new_entry, write_entry, send, begin, commit, next_seq, index_insert, document,
}
use molten_db.Prelude.{ℕ, arith, ◌+◌, ◌%◌, ◌^◌, ◌≢◌, ◌<◌, str_ltb}
use molten_db.Codec.Utf8.{is_utf8}
use molten_db.Codec.Canon.{IsText, IsEncodable, canon_key}
use molten_db.Codec.Stored.{HasStored}
use molten_db.Engine.Schema.{validate_document}
use molten_db.Engine.Documents.{decoded, get_u64}
use molten_db.Engine.Set.{
  insert, insert_item, store_item, stamp_value, must_validate, ensure_collection, is_object,
}
use molten_db.Engine.Update.{update, guard_fails, existing_version}
use molten_db.Engine.Delete.{delete, delete_keys}
use molten_db.Engine.Durability.Transaction.{IsDurable}
use molten_db.Engine.Durability.Runs.{fresh}
use molten_db.Engine.Behaviour.Deletion.{delete-document, mentions}
use molten_db.Engine.Behaviour.Stamping.{decode-stamp_value, next_version, kept}
use molten_db.Engine.Behaviour.Guard.{update-version, update-conflict-IsDurable}
use molten_db.Tests.Codec.{skip_one}

abbrev pub world : World
world = record {
  accepts = λ _ _. true;
  skip = skip_one;
  compiles = λ _. true;
  conforms = λ _ _. true;
}

abbrev pub all_compile : Value → Bool
all_compile _ = true

abbrev pub people : Str
people = codes "p"

abbrev pub alice : Str
alice = codes "a"

abbrev pub items : List (Str × Value)
items = (alice, object end) ∷ []

abbrev pub one : Db
one = (insert world 5 (codes "t") people items fresh).1

pub one_runs : insert world 5 (codes "t") people items fresh ≡ (ok tt, one)
unfolding insert insert_item store_item write_entry for_each begin commit send validate_document
    next_seq must_validate is_object stamp_value ensure_collection Map.get Map.insert str_beq
one_runs = refl

abbrev deleted : Db
deleted = (delete world 7 (codes "d") people (alice ∷ []) one).1

deleted_runs : delete world 7 (codes "d") people (alice ∷ []) one ≡ (ok tt, deleted)
unfolding delete delete_keys for_each begin commit write_entry send Map.get str_beq insert
    Map.insert index_insert
deleted_runs = refl

delete-document_example : document deleted.memory.state people alice ≡ (
    if str_beq people people && mentions (alice ∷ []) alice
    then none
    else document one.memory.state people alice)
delete-document_example =
    delete-document world 7 (codes "d") people (alice ∷ []) one deleted deleted_runs people alice

-- The update expects version 3 of a document that has none.
abbrev expecting : Fields
expecting = field SystemFields.version (number (pos_int 3)) end

-- The log of an insertion, as a replay reads it.
abbrev stocked : Db
stocked = record fresh {
  memory = record { state = (people, (alice, 0x80 ∷ []) ∷ []) ∷ []; schemas = []; ttl_expiry = [] };
  wal =
      new_entry 1 Command.ikey_tx_begin people (codes "t") null
      ∷ new_entry 1 Command.ikey_insert people alice (object end)
      ∷ new_entry 1 Command.ikey_tx_commit people (codes "t") null
      ∷ [];
}

stocked-IsDurable : IsDurable all_compile 9 stocked
unfolding stream_into_state replay_from replay_step apply_all apply_entry is_active new_entry
    str_beq put_document Map.get Map.insert value_to_msgpack write_value write_map_header Object.len
stocked-IsDurable = λ c k. refl

alice_found : decoded stocked.memory.state people alice ≡ some (object end)
unfolding decoded document Map.get str_beq msgpack_to_value Read.read_value Read.read_marked
    Marker.marker Read.read_map Read.read_entries
alice_found = refl

alice_stale :
    guard_fails (get_u64 (object expecting) SystemFields.version) (existing_version (object end))
    ≡ true
unfolding guard_fails Object.lookup Object.as_u64 Numeric.as_u64 str_beq Object.get
alice_stale = refl

no_schema : Map.get stocked.memory.schemas people ≡ none
unfolding Map.get
no_schema = refl

alice_guarded : get_u64 (object expecting) SystemFields.version ≡ some 3
unfolding Object.lookup Object.as_u64 Numeric.as_u64 str_beq Object.get
alice_guarded = refl

update-version_example :
    (3 ≢ existing_version (object end)
      → update world 6 (codes "u") people alice (object expecting) stocked ≡ (
        err conflict,
        record stocked {
          wal = stocked.wal ++ new_entry 6 Command.ikey_tx_begin people (codes "u") null ∷ [];
        },
      ))
    × (3 ≡ existing_version (object end)
        → ((update world 6 (codes "u") people alice (object expecting) stocked).0 ≡ ok true)
          × (v : Value) × (document
                (update world 6 (codes "u") people alice (object expecting) stocked).1.memory.state
                people
                alice
              ≡ some (value_to_msgpack v))
          × (get_u64 v SystemFields.version ≡ some ((existing_version (object end) + 1) % 2 ^ 64)))
update-version_example =
    update-version world 6 (codes "u") people alice expecting end 3 stocked alice_found
      alice_guarded (λ log e. refl) no_schema

update-conflict-IsDurable_example :
    IsDurable all_compile 9 (update world 6 (codes "u") people alice (object expecting) stocked).1
update-conflict-IsDurable_example =
    update-conflict-IsDurable world 6 (codes "u") people alice expecting (object end) stocked
      alice_found alice_stale refl all_compile 9 stocked-IsDurable

ikey_IsText : (a : ℕ) → a < 128 → IsText (45 ∷ a ∷ [])
unfolding is_utf8
ikey_IsText a h = record { short = omega arith; utf8 = ground (arith, h) }

abbrev painted : Fields
painted = field (codes "hue") (number (pos_int 7)) end

hue_IsText : IsText (codes "hue")
unfolding is_utf8
hue_IsText = record { short = omega arith; utf8 = refl }

hue-HasStored : HasStored painted
unfolding canon_key str_beq
hue-HasStored = (refl, tt, tt, tt)

hue-IsEncodable : IsEncodable (stamp_value 8 4 (some (object end)) (object painted))
unfolding stamp_value Object.insert str_beq str_ltb is_utf8 Object.lookup Object.get Object.len
hue-IsEncodable = (
  omega arith,
  (
    ikey_IsText 49 (omega arith),
    omega arith,
    (
      ikey_IsText 51 (omega arith),
      omega arith,
      (
        ikey_IsText 52 (omega arith),
        omega arith,
        (ikey_IsText 53 (omega arith), omega arith, (hue_IsText, omega arith, tt)),
      ),
    ),
  ),
)

decode-stamp_value_example :
    (v : Value) × (msgpack_to_value
        (value_to_msgpack (stamp_value 8 4 (some (object end)) (object painted)))
      ≡ some v)
    × (get_u64 v SystemFields.ikey_version ≡ some (next_version (some (object end))))
    × (get_u64 v SystemFields.ikey_seq ≡ some (kept (some (object end)) SystemFields.ikey_seq 4))
    × (get_u64 v SystemFields.ikey_created_at
        ≡ some (kept (some (object end)) SystemFields.ikey_created_at 8))
    × (get_u64 v SystemFields.ikey_modified_at ≡ some 8)
decode-stamp_value_example =
    decode-stamp_value 8 4 (some (object end)) painted hue-HasStored hue-IsEncodable
