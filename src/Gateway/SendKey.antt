-- ===== src/Gateway/SendKey.antt =====
-- internal/gateway/gateway.go, dedupeKeyFor: the key of a send command in the ledger.
use Prim.Native.Nat.{bit_xor}
use whatsmeow_gateway.Base.{
  ℕ, ◌+◌, ◌*◌, ◌/◌, ◌%◌, ◌^◌, String, List, [], ◌∷◌, ◌++◌, ◌<>◌, ◌==◌, if◌then◌else◌, ltb,
  string_Eq, codes, ◌≡◌, refl, zero, suc, Option, none, some, get_elem?,
}

-- The bytes of a text in UTF-8.
abbrev utf8_of : ℕ → List ℕ
utf8_of c =
    if ltb c 0x80
    then c ∷ []
    else if ltb c 0x800
    then (0xC0 + c / 64) ∷ (0x80 + c % 64) ∷ []
    else if ltb c 0x10000
    then (0xE0 + c / 4096) ∷ (0x80 + c / 64 % 64) ∷ (0x80 + c % 64) ∷ []
    else (0xF0 + c / 262144) ∷ (0x80 + c / 4096 % 64) ∷ (0x80 + c / 64 % 64) ∷ (0x80 + c % 64) ∷ []

utf8 : List ℕ → List ℕ
utf8 [] = []
utf8 (c ∷ cs) = utf8_of c ++ utf8 cs

-- `hash/fnv`, New32a.
fnv_from : ℕ → List ℕ → ℕ
fnv_from hash [] = hash
fnv_from hash (byte ∷ bytes) = fnv_from (bit_xor hash byte * 16777619 % 2 ^ 32) bytes

pub fnv : String → ℕ
unfolding utf8 fnv_from
fnv text = fnv_from 2166136261 (utf8 (codes text))

abbrev digits : List String
digits =
    "0" ∷ "1" ∷ "2" ∷ "3" ∷ "4" ∷ "5" ∷ "6" ∷ "7" ∷ "8" ∷ "9" ∷ "a" ∷ "b" ∷ "c" ∷ "d" ∷ "e" ∷ "f"
    ∷ []

abbrev or_blank : Option String → String
or_blank none = ""
or_blank (some digit) = digit

-- `%08x` of a number below 2 ^ 32: its lowest digits.
unfoldable pub hex : ℕ → ℕ → String
hex zero n = ""
hex (suc width) n = hex width (n / 16) <> or_blank (get_elem? digits (n % 16))

pub data Kind : Type 0 where
  plain revoke edit reaction : Kind

abbrev pub kind_of : String → Kind
kind_of kind =
    if kind == "revoke"
    then revoke
    else if kind == "edit"
    then edit
    else if kind == "reaction"
    then reaction
    else plain

-- internal/amqp/contracts.go: the part of the command that the handler itself reads.
pub record SendCommand : Type 0 where
  pub tenant_id : String
  pub channel_id : String
  pub message_id : String
  pub to : String
  pub kind : String
  pub target_provider_message_id : String
  pub emoji : String
  pub text : String

abbrev pub key_for : Kind → SendCommand → String
key_for revoke cmd = cmd.message_id <> (":revoke:" <> cmd.target_provider_message_id)
key_for edit cmd =
    cmd.message_id
    <> (":edit:" <> (cmd.target_provider_message_id <> (":" <> hex 8 (fnv cmd.text))))
key_for reaction cmd =
    cmd.message_id
    <> (":reaction:" <> (cmd.target_provider_message_id <> (":" <> hex 8 (fnv cmd.emoji))))
key_for plain cmd = cmd.message_id

unfoldable pub dedupe_key_for : SendCommand → String
dedupe_key_for cmd = key_for (kind_of cmd.kind) cmd

-- FNV-1a of "a".
fnv_of_a : hex 8 (fnv "a") ≡ "e40c292c"
unfolding hex fnv fnv_from utf8
fnv_of_a = refl
