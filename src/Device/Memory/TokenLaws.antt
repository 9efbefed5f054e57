-- ===== src/Device/Memory/TokenLaws.antt =====
-- What the token methods of internal/device/memory_repository.go promise one another.
use agen_sense.Prelude.{
  String, Option, some, false, ◌≡◌, refl, ap, ◌∙◌, inl, inr, ◌≢◌, arith, lookup, insert,
  lookup-insert, lookup-insert_self, ==_iff, ==_refl, string_eq, ok, err, conflict, Option-cases,
  if◌then◌else◌,
}
use agen_sense.Device.Model.{
  Time, IssuedDeviceToken, clone_issued_device_token, clone_issued_device_token_lem,
}
use agen_sense.Device.Tables.{Tables}
use agen_sense.Device.Memory.Invariant.{IsWellFormed}
use agen_sense.Device.Memory.Directory.{found}
use agen_sense.Device.Memory.Tokens.{
  clashes, token_of, save_issued_device_token, find_issued_device_token_by_hash,
  revoke_issued_device_token,
}

-- Looking a hash up is reading the token that the index names.
unfoldable pub found_by_hash : String → Tables → Option IssuedDeviceToken
found_by_hash h s = token_of (lookup h s.token_index) s

pub find_issued_device_token_by_hash_lem :
    (h : String) (s : Tables)
    → find_issued_device_token_by_hash h s
      ≡ (found clone_issued_device_token (found_by_hash h s), s)
unfolding find_issued_device_token_by_hash found_by_hash
find_issued_device_token_by_hash_lem h s = refl

abbrev pub saved : IssuedDeviceToken → Tables → Tables
saved t s = record s {
  issued_tokens = insert t.id t s.issued_tokens;
  token_index = insert t.token_hash t.id s.token_index;
}

-- SaveIssuedDeviceToken returns ErrConflict and changes nothing when the index holds the hash for
-- another token; otherwise it returns the token and stores it under its id and its hash.
pub save_issued_device_token_lem :
    (t : IssuedDeviceToken) (s : Tables)
    → save_issued_device_token t s ≡ (
        if clashes (lookup t.token_hash s.token_index) t.id
        then (err conflict, s)
        else (ok t, saved t s))
unfolding save_issued_device_token
save_issued_device_token_lem t s = simp clone_issued_device_token_lem

pub found_by_hash-saved :
    (t : IssuedDeviceToken) (s : Tables) → found_by_hash t.token_hash (saved t s) ≡ some t
unfolding found_by_hash
found_by_hash-saved t s = simp (lookup-insert, ==_refl)

-- When SaveIssuedDeviceToken succeeds, FindIssuedDeviceTokenByHash returns the saved token for its
-- hash, whatever the tables held before.
find-save :
    (t u : IssuedDeviceToken) (s : Tables)
    → (save_issued_device_token t s).0 ≡ ok u
    → find_issued_device_token_by_hash t.token_hash (save_issued_device_token t s).1
      ≡ (ok t, (save_issued_device_token t s).1)
unfolding find_issued_device_token_by_hash
find-save t u s h = ground (
  arith,
  save_issued_device_token_lem t s,
  lookup-insert_self t.token_hash t.id s.token_index,
  lookup-insert_self t.id t s.issued_tokens,
  clone_issued_device_token_lem t,
)

-- When a token is saved and then saved again under the same id with another hash, both saves being
-- free of conflicts, FindIssuedDeviceTokenByHash still answers the first hash, with the token of
-- the second save.
find-save_again :
    (t u : IssuedDeviceToken) (s : Tables)
    → t.id ≡ u.id
    → t.token_hash ≢ u.token_hash
    → clashes (lookup t.token_hash s.token_index) t.id ≡ false
    → clashes (lookup u.token_hash s.token_index) u.id ≡ false
    → (find_issued_device_token_by_hash t.token_hash
        (save_issued_device_token u (save_issued_device_token t s).1).1).0
      ≡ ok u
unfolding find_issued_device_token_by_hash
find-save_again t u s same differ free free' = ground (
  arith,
  save_issued_device_token_lem t s,
  save_issued_device_token_lem u (saved t s),
  lookup-insert t.token_hash u.token_hash t.id s.token_index,
  lookup-insert u.token_hash t.token_hash u.id (saved t s).token_index,
  lookup-insert_self t.token_hash t.id s.token_index,
  lookup-insert_self u.id u (saved t s).issued_tokens,
  ==_iff t.token_hash u.token_hash,
  ==_iff u.token_hash t.token_hash,
  clone_issued_device_token_lem u,
)

-- Under the invariant a token that a hash finds stands under its own id.
pub found_by_hash-lookup :
    (h : String) (t : IssuedDeviceToken) (s : Tables)
    → IsWellFormed s
    → found_by_hash h s ≡ some t
    → lookup t.id s.issued_tokens ≡ some t
unfolding found_by_hash
found_by_hash-lookup h t s w e = elim (Option-cases (lookup h s.token_index)) [
  | inl p ↦ absurd (cc (e, ap (λ (o : Option String). token_of o s) p))
  | inr (id, p) ↦
      let at_id : lookup id s.issued_tokens ≡ some t = rw p at e in
      ap (λ k. lookup k s.issued_tokens) (w.tokens id t at_id) ∙ at_id
]

-- Under the invariant a stored token is found by its own hash.
pub found_by_hash-own :
    (id : String) (t : IssuedDeviceToken) (s : Tables)
    → IsWellFormed s
    → lookup id s.issued_tokens ≡ some t
    → found_by_hash t.token_hash s ≡ some t
unfolding found_by_hash
found_by_hash-own id t s w e = rw (w.indexed id t e) e

-- A revocation is seen by whoever looks the token up by its hash.
pub find-revoke :
    (id : String) (at : Time) (t : IssuedDeviceToken) (s : Tables)
    → IsWellFormed s
    → lookup id s.issued_tokens ≡ some t
    → found_by_hash t.token_hash (revoke_issued_device_token id at s).1
      ≡ some (record t { revoked_at = some at })
unfolding found_by_hash revoke_issued_device_token
find-revoke id at t s w e = ground (
  arith,
  w.indexed id t e,
  lookup-insert_self id (record t { revoked_at = some at }) s.issued_tokens,
)

-- From an index entry and its token.
pub found_by_hash_lem :
    (h id : String) (t : IssuedDeviceToken) (s : Tables)
    → lookup h s.token_index ≡ some id
    → lookup id s.issued_tokens ≡ some t
    → found_by_hash h s ≡ some t
unfolding found_by_hash
found_by_hash_lem h id t s p q = rw p q
