-- ===== src/Server/Session/Table.antt =====
-- The table of src/server/internal/session/manager.go as a Go map: every session stands under its
-- own id, and no id stands twice.
use xnc.Prelude.{◌≡◌, refl, String, none, some, [], ◌∷◌, arith}
use xnc.Prelude.Map.{Map, lookup, insert, delete, lookup-insert, lookup-delete, get, put, del}
use xnc.Server.Session.{Session}
use xnc.Server.Session.Attach.{with_client_token, with_used_client_token, session_by_client_token}

abbrev pub IsKeyed : Map String Session → Type 0
IsKeyed [] = Unit
IsKeyed ((k, s) ∷ m) = (s.id ≡ k) × (lookup k m ≡ none) × IsKeyed m

pub lookup-id :
    (m : Map String Session) (k : String) (s : Session) → IsKeyed m → lookup k m ≡ some s → s.id ≡ k
unfolding get
lookup-id [] k s w e = cc
lookup-id ((j, v) ∷ m) k s w e = ground (arith, lookup-id m k s w.2)

pub insert-IsKeyed : (m : Map String Session) (s : Session) → IsKeyed m → IsKeyed (insert s.id s m)
unfolding put get
insert-IsKeyed [] s w = (refl, refl, tt)
insert-IsKeyed ((j, v) ∷ m) s w = ground (arith, insert-IsKeyed m s w.2, lookup-insert s.id j s m)

pub delete-IsKeyed : (m : Map String Session) (k : String) → IsKeyed m → IsKeyed (delete k m)
unfolding del get
delete-IsKeyed [] k w = tt
delete-IsKeyed ((j, v) ∷ m) k w = ground (arith, delete-IsKeyed m k w.2, lookup-delete k j m)

with_client_token-lookup :
    (m : Map String Session) (token : String) (s : Session)
    → IsKeyed m
    → with_client_token m token ≡ some s
    → lookup s.id m ≡ some s
unfolding with_client_token get
with_client_token-lookup [] token s w e = cc
with_client_token-lookup ((j, v) ∷ m) token s w e =
    ground (arith, with_client_token-lookup m token s w.2)

with_used_client_token-lookup :
    (m : Map String Session) (token : String) (s : Session)
    → IsKeyed m
    → with_used_client_token m token ≡ some s
    → lookup s.id m ≡ some s
unfolding with_used_client_token get
with_used_client_token-lookup [] token s w e = cc
with_used_client_token-lookup ((j, v) ∷ m) token s w e =
    ground (arith, with_used_client_token-lookup m token s w.2)

pub session_by_client_token-lookup :
    (m : Map String Session) (token : String) (s : Session)
    → IsKeyed m
    → session_by_client_token m token ≡ some s
    → lookup s.id m ≡ some s
unfolding session_by_client_token
session_by_client_token-lookup m token s w e =
    ground (arith, with_client_token-lookup m token s w, with_used_client_token-lookup m token s w)
