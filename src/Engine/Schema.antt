-- ===== src/Engine/Schema.antt =====
-- moltendb-core/src/engine/schema.rs
use molten_db.Prelude.{none, some, [], Str, str_eq, codes, ℕ, if◌then◌else◌}
use molten_db.Prelude.Map
use molten_db.Json.{Value}
use molten_db.Wal.Command
use molten_db.Engine.Types.{schema_validation_error, schema_set}
use molten_db.Engine.Op.{Op, pure, fail, modify, ◌>>◌}
use molten_db.Engine.State.{World, Db, new_entry, write_entry, send, begin, commit}

-- A collection without a schema takes every document.
unfoldable pub validate_document : World → Str → Value → Op Db (Unit {0})
validate_document w c doc db = elim (Map.get db.memory.schemas c) [
  | none ↦ pure tt db
  | some schema ↦
      (if w.conforms schema doc
          then pure tt
          else fail (schema_validation_error (codes "Document does not conform to schema")))
        db
]

-- The validator that `jsonschema` compiles is a function of the schema, so the schema stands for
-- both. The command is written out as `SCHEMA`, which the encoding of entries makes a token.
unfoldable pub store_schema : World → ℕ → Str → Str → Value → Op Db (Unit {0})
unfolding new_entry write_entry begin commit send
store_schema w now tx c schema = do
  begin w now c tx
  write_entry w (new_entry now Command.schema c [] schema)
  commit w now c tx
  modify λ db. record db {
    memory = record db.memory { schemas = Map.insert c schema db.memory.schemas };
  }
  send (schema_set c schema)

unfoldable pub set_schema : World → ℕ → Str → Str → Value → Op Db (Unit {0})
unfolding store_schema
set_schema w now tx c schema =
    if w.compiles schema
    then store_schema w now tx c schema
    else fail (schema_validation_error (codes "Invalid schema"))
