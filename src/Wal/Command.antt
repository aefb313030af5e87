-- ===== src/Wal/Command.antt =====
-- moltendb-core/src/common/log_commands.rs
use molten_db.Prelude.{ℕ, Option, none, some, [], ◌||◌, Str, codes, str_beq, nat_beq, if◌then◌else◌}

abbrev pub insert : Str
insert = codes "INSERT"

abbrev pub delete : Str
delete = codes "DELETE"

abbrev pub drop : Str
drop = codes "DROP"

abbrev pub index : Str
index = codes "INDEX"

abbrev pub schema : Str
schema = codes "SCHEMA"

abbrev pub enc : Str
enc = codes "ENC"

abbrev pub tx_begin : Str
tx_begin = codes "TX_BEGIN"

abbrev pub tx_commit : Str
tx_commit = codes "TX_COMMIT"

abbrev pub ikey_insert : Str
ikey_insert = codes "-10"

abbrev pub ikey_delete : Str
ikey_delete = codes "-11"

abbrev pub ikey_drop : Str
ikey_drop = codes "-12"

abbrev pub ikey_index : Str
ikey_index = codes "-13"

abbrev pub ikey_schema : Str
ikey_schema = codes "-14"

abbrev pub ikey_enc : Str
ikey_enc = codes "-15"

abbrev pub ikey_tx_begin : Str
ikey_tx_begin = codes "-16"

abbrev pub ikey_tx_commit : Str
ikey_tx_commit = codes "-17"

-- Not among the constants of log_commands.rs: the engine writes it as a literal.
abbrev pub ttl_expiry : Str
ttl_expiry = codes "TTL_EXPIRY"

-- The empty string stands for a command that is not known.
unfoldable pub to_ikey : Str → Str
to_ikey cmd =
    if str_beq cmd insert
    then ikey_insert
    else if str_beq cmd delete
    then ikey_delete
    else if str_beq cmd drop
    then ikey_drop
    else if str_beq cmd index
    then ikey_index
    else if str_beq cmd schema
    then ikey_schema
    else if str_beq cmd enc
    then ikey_enc
    else if str_beq cmd tx_begin
    then ikey_tx_begin
    else if str_beq cmd tx_commit
    then ikey_tx_commit
    else []

unfoldable pub from_ikey : Str → Option Str
from_ikey ikey =
    if str_beq ikey ikey_insert
    then some insert
    else if str_beq ikey ikey_delete
    then some delete
    else if str_beq ikey ikey_drop
    then some drop
    else if str_beq ikey ikey_index
    then some index
    else if str_beq ikey ikey_schema
    then some schema
    else if str_beq ikey ikey_enc
    then some enc
    else if str_beq ikey ikey_tx_begin
    then some tx_begin
    else if str_beq ikey ikey_tx_commit
    then some tx_commit
    else none

-- The byte of the token, in the writer and in the reader of entries.
unfoldable pub token : Str → Option ℕ
token cmd =
    if str_beq cmd insert || str_beq cmd ikey_insert
    then some 0xf6
    else if str_beq cmd delete || str_beq cmd ikey_delete
    then some 0xf5
    else if str_beq cmd drop || str_beq cmd ikey_drop
    then some 0xf4
    else if str_beq cmd index || str_beq cmd ikey_index
    then some 0xf3
    else if str_beq cmd schema || str_beq cmd ikey_schema
    then some 0xf2
    else if str_beq cmd enc || str_beq cmd ikey_enc
    then some 0xf1
    else if str_beq cmd tx_begin || str_beq cmd ikey_tx_begin
    then some 0xf0
    else if str_beq cmd tx_commit || str_beq cmd ikey_tx_commit
    then some 0xef
    else none

unfoldable pub of_token : ℕ → Option Str
of_token b =
    if nat_beq b 0xf6
    then some ikey_insert
    else if nat_beq b 0xf5
    then some ikey_delete
    else if nat_beq b 0xf4
    then some ikey_drop
    else if nat_beq b 0xf3
    then some ikey_index
    else if nat_beq b 0xf2
    then some ikey_schema
    else if nat_beq b 0xf1
    then some ikey_enc
    else if nat_beq b 0xf0
    then some ikey_tx_begin
    else if nat_beq b 0xef
    then some ikey_tx_commit
    else none
