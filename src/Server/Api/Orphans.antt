-- ===== src/Server/Api/Orphans.antt =====
-- src/server/internal/api/user_handlers.go: what the deletion of a user leaves of the clusters it
-- was an owner of.
use xnc.Prelude.{◌≡◌, refl, String, Bool, true, ◌&&◌, not, List, [], ◌∷◌, arith}
use xnc.Prelude.Rows.{same, count, without, some_row, first}
use xnc.Server.Db.{User, Cluster, ClusterMember, Store}
use xnc.Server.Db.Membership.{owns}
use xnc.Server.Db.UsersAdmin.{of_user, owned_by, in_owned, delete_owned_clusters, delete_user_row}
use xnc.Server.Api.{Env, go}
use xnc.Server.Api.Users.{keep_admin, delete_user_tx}

-- The cluster `c`, whose column owner_id names somebody else.
abbrev pub of_another : String → String → Cluster → Bool
of_another uid c k = same k.id c && not (owned_by uid k)

-- The owners of the cluster `c` other than the user.
abbrev pub other_owner : String → String → ClusterMember → Bool
other_owner uid c m = owns c m && not (of_user uid m)

left :
    (uid c : String) (ms : List ClusterMember)
    → count (other_owner uid c) ms ≡ 0
    → count (owns c) (without (of_user uid) ms) ≡ 0
unfolding count without
left uid c [] h = refl
left uid c (m ∷ ms) h = ground (arith, left uid c ms)

fewer :
    (uid c : String) (q : ClusterMember → Bool) (ms : List ClusterMember)
    → count (other_owner uid c) ms ≡ 0
    → count (other_owner uid c) (without q ms) ≡ 0
unfolding count without
fewer uid c q [] h = refl
fewer uid c q (m ∷ ms) h = ground (arith, fewer uid c q ms)

kept :
    (uid c : String) (ks : List Cluster)
    → some_row (of_another uid c) ks ≡ true
    → some_row (of_another uid c) (without (owned_by uid) ks) ≡ true
unfolding some_row first without
kept uid c [] h = h
kept uid c (k ∷ ks) h = ground (arith, kept uid c ks)

-- Deleting a user who is the only owner of a cluster that another user created leaves the cluster
-- in place without an owner: the rows of the membership go with the user, and no guard looks.
pub delete_user_tx-orphans :
    (e : Env) (uid c : String) (target : User) (d : Store)
    → (delete_user_tx e uid target d).0 ≡ go tt
    → some_row (of_another uid c) d.clusters ≡ true
    → count (other_owner uid c) d.members ≡ 0
    → (some_row (of_another uid c) (delete_user_tx e uid target d).1.clusters ≡ true)
      × (count (owns c) (delete_user_tx e uid target d).1.members ≡ 0)
unfolding delete_user_tx keep_admin delete_owned_clusters delete_user_row
delete_user_tx-orphans e uid c target d passed there alone =
    let q : ClusterMember → Bool = λ m. in_owned uid d.clusters m.cluster_id in
    ground (
      arith,
      kept uid c d.clusters there,
      left uid c (without q d.members) (fewer uid c q d.members alone),
    )
