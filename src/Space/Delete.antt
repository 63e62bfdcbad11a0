-- ===== src/Space/Delete.antt =====
-- The deletion of a space: DeleteSpace of internal/master/services/space_service.go. The store, the lock and the
-- partition servers are parameters.
use vearch.Prelude.{
  ℕ, List, [], ◌∷◌, ◌++◌, map, Option, none, some, Result, ok, err, String, ◌≡◌, refl, ap, ◌∙◌,
}
use vearch.Space.Model.{Partition}

-- entity.SpaceKey, entity.PartitionKey and entity.SpaceConfigKey
pub data Key : Type 0 where
  space_key : ℕ → ℕ → Key
  partition_key : ℕ → Key
  space_config_key : ℕ → ℕ → Key

-- What the deletion does: a key that is gone, and the call that deletes a partition on a server.
pub data Deletion : Type 0 where
  key_gone : Key → Deletion
  delete_partition : String → ℕ → Deletion

-- The answers: to QueryDBName2ID, to QuerySpaceByName with the id and the partitions of the space, to the lock, to
-- QueryServer, and to the deletion of a key.
pub record DeleteEnv : Type 0 where
  pub db_id : Result ℕ
  pub space : ℕ → Result (Option (ℕ × List Partition))
  pub lock : Result (Unit {0})
  pub server : ℕ → Result String
  pub delete : Key → Result (Unit {0})

abbrev pub Deleted : Type 0
Deleted = Result (Unit {0}) × List Deletion

-- An error ends the function.
unfoldable pub after_key : Result (Unit {0}) → Key → Deleted → Deleted
after_key (err e) key later = (err e, [])
after_key (ok _) key later = (later.0, key_gone key ∷ later.1)

unfoldable pub tell_replica : Result String → ℕ → List Deletion → List Deletion
tell_replica (err e) id later = later
tell_replica (ok address) id later = delete_partition address id ∷ later

-- The loop over the replicas, in which errors are only logged
unfoldable pub tell_replicas : DeleteEnv → ℕ → List ℕ → List Deletion
unfolding tell_replica
tell_replicas env id [] = []
tell_replicas env id (replica ∷ replicas) =
    tell_replica (env.server replica) id (tell_replicas env id replicas)

unfoldable pub delete_partitions : DeleteEnv → List Partition → Deleted → Deleted
unfolding after_key tell_replicas
delete_partitions env [] later = later
delete_partitions env (p ∷ ps) later =
    let rest =
      after_key (env.delete (partition_key p.id)) (partition_key p.id)
        (delete_partitions env ps later) in
    (rest.0, tell_replicas env p.id p.replicas ++ rest.1)

-- With the answer to the lock
unfoldable pub delete_locked : DeleteEnv → ℕ → ℕ → List Partition → Result (Unit {0}) → Deleted
unfolding after_key delete_partitions
delete_locked env db_id id partitions (err e) = (err e, [])
delete_locked env db_id id partitions (ok _) =
    let last = space_config_key db_id id in
    after_key (env.delete (space_key db_id id)) (space_key db_id id)
      (delete_partitions env partitions (after_key (env.delete last) last (ok tt, [])))

-- With the answer to QuerySpaceByName
unfoldable pub delete_found : DeleteEnv → ℕ → Result (Option (ℕ × List Partition)) → Deleted
unfolding delete_locked
delete_found env db_id (err e) = (err e, [])
delete_found env db_id (ok none) = (ok tt, [])
delete_found env db_id (ok (some (id, partitions))) = delete_locked env db_id id partitions env.lock

-- With the answer to QueryDBName2ID
unfoldable pub delete_in : DeleteEnv → Result ℕ → Deleted
unfolding delete_found
delete_in env (err e) = (err e, [])
delete_in env (ok db_id) = delete_found env db_id (env.space db_id)

unfoldable pub delete_space : DeleteEnv → Deleted
unfolding delete_in
delete_space env = delete_in env env.db_id

-- The keys that are gone, in their order
abbrev pub keys_gone : List Deletion → List Key
keys_gone [] = []
keys_gone (key_gone key ∷ rest) = key ∷ keys_gone rest
keys_gone (delete_partition address id ∷ rest) = keys_gone rest

-- Keys that are deleted one after the other up to the first error
abbrev gone_after :
    Result (Unit {0}) → Key → Result (Unit {0}) × List Key → Result (Unit {0}) × List Key
gone_after (err e) key later = (err e, [])
gone_after (ok _) key later = (later.0, key ∷ later.1)

abbrev pub in_order : (Key → Result (Unit {0})) → List Key → Result (Unit {0}) × List Key
in_order delete [] = (ok tt, [])
in_order delete (key ∷ keys) = gone_after (delete key) key (in_order delete keys)

-- All the keys of a space
abbrev pub keys_of : ℕ → ℕ → List Partition → List Key
keys_of db_id id partitions =
    space_key db_id id ∷ map (λ (p : Partition). partition_key p.id) partitions
    ++ space_config_key db_id id ∷ []

keys_gone-tell_replica :
    (answer : Result String) (id : ℕ) (later rest : List Deletion)
    → keys_gone (tell_replica answer id later ++ rest) ≡ keys_gone (later ++ rest)
unfolding tell_replica
keys_gone-tell_replica (err e) id later rest = refl
keys_gone-tell_replica (ok address) id later rest = refl

keys_gone-tell_replicas :
    (env : DeleteEnv) (id : ℕ) (replicas : List ℕ) (rest : List Deletion)
    → keys_gone (tell_replicas env id replicas ++ rest) ≡ keys_gone rest
unfolding tell_replicas
keys_gone-tell_replicas env id [] rest = refl
keys_gone-tell_replicas env id (replica ∷ replicas) rest =
    keys_gone-tell_replica (env.server replica) id (tell_replicas env id replicas) rest
    ∙ keys_gone-tell_replicas env id replicas rest

after_key-gone_after :
    (answer : Result (Unit {0})) (key : Key) (later : Deleted)
    → ((after_key answer key later).0, keys_gone (after_key answer key later).1)
      ≡ gone_after answer key (later.0, keys_gone later.1)
unfolding after_key
after_key-gone_after (err e) key later = refl
after_key-gone_after (ok _) key later = refl

after_key-in_order :
    (env : DeleteEnv) (key : Key) (keys : List Key) (later : Deleted)
    → (later.0, keys_gone later.1) ≡ in_order env.delete keys
    → ((after_key (env.delete key) key later).0, keys_gone (after_key (env.delete key) key later).1)
      ≡ in_order env.delete (key ∷ keys)
after_key-in_order env key keys later h =
    after_key-gone_after (env.delete key) key later ∙ ap (gone_after (env.delete key) key) h

delete_partitions-in_order :
    (env : DeleteEnv) (ps : List Partition) (keys : List Key) (later : Deleted)
    → (later.0, keys_gone later.1) ≡ in_order env.delete keys
    → ((delete_partitions env ps later).0, keys_gone (delete_partitions env ps later).1)
      ≡ in_order env.delete (map (λ (p : Partition). partition_key p.id) ps ++ keys)
unfolding delete_partitions
delete_partitions-in_order env [] keys later h = h
delete_partitions-in_order env (p ∷ ps) keys later h =
    let rest = delete_partitions env ps later in
    let step = after_key (env.delete (partition_key p.id)) (partition_key p.id) rest in
    ap (λ ks. (step.0, ks)) (keys_gone-tell_replicas env p.id p.replicas step.1)
    ∙ after_key-in_order env (partition_key p.id) _ rest
        (delete_partitions-in_order env ps keys later h)

-- DeleteSpace deletes the key of the space, then the keys of its partitions, then the key of its configuration, up
-- to the first that cannot be deleted, and answers with its error; without one all are gone and the answer is ok.
-- Conditions: the database and the space are found, and the lock is given.
pub delete_space-in_order :
    (env : DeleteEnv) (db_id id : ℕ) (partitions : List Partition)
    → env.db_id ≡ ok db_id
    → env.space db_id ≡ ok (some (id, partitions))
    → env.lock ≡ ok tt
    → ((delete_space env).0, keys_gone (delete_space env).1)
      ≡ in_order env.delete (keys_of db_id id partitions)
unfolding delete_space delete_in delete_found delete_locked
delete_space-in_order env db_id id partitions d s l =
    let last = space_config_key db_id id in
    ap (λ (r : Deleted). (r.0, keys_gone r.1))
      (ap (delete_in env) d
        ∙ ap (delete_found env db_id) s
        ∙ ap (delete_locked env db_id id partitions) l)
    ∙ after_key-in_order env (space_key db_id id) _ _ (
        delete_partitions-in_order env partitions (last ∷ []) _
          (after_key-in_order env last [] (ok tt, []) refl))
