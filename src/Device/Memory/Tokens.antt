-- ===== src/Device/Memory/Tokens.antt =====
-- internal/device/memory_repository.go: issued tokens and their index by hash.
use agen_sense.Prelude.{
  String, Option, none, some, Bool, false, not, lookup, insert, ok, err, not_found, conflict, Exec,
  ◌==◌, string_eq, if◌then◌else◌,
}
use agen_sense.Device.Model.{Time, IssuedDeviceToken, clone_issued_device_token}
use agen_sense.Device.Tables.{Tables}
use agen_sense.Device.Memory.Directory.{found}

-- `existingID, ok := tokenIndex[hash]; ok && existingID != token.ID`
abbrev pub clashes : Option String → String → Bool
clashes none id = false
clashes (some existing_id) id = not (existing_id == id)

unfoldable pub save_issued_device_token : IssuedDeviceToken → Exec Tables IssuedDeviceToken
save_issued_device_token t s =
    let t' = clone_issued_device_token t in
    if clashes (lookup t'.token_hash s.token_index) t'.id then (err conflict, s) else (
      ok (clone_issued_device_token t'),
      record s {
        issued_tokens = insert t'.id t' s.issued_tokens;
        token_index = insert t'.token_hash t'.id s.token_index;
      },
    )

unfoldable pub get_issued_device_token : String → Exec Tables IssuedDeviceToken
get_issued_device_token token_id s =
    (found clone_issued_device_token (lookup token_id s.issued_tokens), s)

abbrev pub token_of : Option String → Tables → Option IssuedDeviceToken
token_of none s = none
token_of (some token_id) s = lookup token_id s.issued_tokens

unfoldable pub find_issued_device_token_by_hash : String → Exec Tables IssuedDeviceToken
find_issued_device_token_by_hash token_hash s =
    (found clone_issued_device_token (token_of (lookup token_hash s.token_index) s), s)

abbrev pub update_token :
    Option IssuedDeviceToken
    → (IssuedDeviceToken → IssuedDeviceToken)
    → String
    → Exec Tables IssuedDeviceToken
update_token none f token_id s = (err not_found, s)
update_token (some t) f token_id s = (
  ok (clone_issued_device_token (f t)),
  record s { issued_tokens = insert token_id (f t) s.issued_tokens },
)

unfoldable pub touch_issued_device_token : String → Time → Exec Tables IssuedDeviceToken
touch_issued_device_token token_id used_at s =
    update_token (lookup token_id s.issued_tokens) (λ t. record t { last_used_at = some used_at })
      token_id s

unfoldable pub revoke_issued_device_token : String → Time → Exec Tables IssuedDeviceToken
revoke_issued_device_token token_id revoked_at s =
    update_token (lookup token_id s.issued_tokens) (λ t. record t { revoked_at = some revoked_at })
      token_id s
