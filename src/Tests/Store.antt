-- ===== src/Tests/Store.antt =====
-- The interface `Redis` at a concrete keyspace, which meets its laws.
use vix_75_platform.Base.{
  suc, String, ◌≡◌, refl, Option, none, some, List, [], ◌∷◌, ◌++◌, length, if◌then◌else◌, is_some,
  arith,
}
use vix_75_platform.Base.Dict.{Dict, lookup, insert, text_eq, text_eq_iff, text_eq_refl}
use vix_75_platform.Redis.{Redis, RedisLaws}

pub record Keyspace : Type 0 where
  pub texts : String → Option String
  pub hashes : String → Dict String
  pub streams : String → List (Dict String)

abbrev pub empty : Keyspace
empty = record { texts = λ _. none; hashes = λ _. []; streams = λ _. [] }

abbrev pub update : {A : Type 0} → String → A → (String → A) → String → A
update k v f j = if text_eq k j then v else f j

abbrev without : String → Dict String → Dict String
without k [] = []
without k ((i, v) ∷ d) = if text_eq i k then without k d else (i, v) ∷ without k d

instance abbrev pub keyspace_redis : Redis Keyspace
keyspace_redis = record {
  get = λ k r. r.texts k;
  set = λ k v _ r. record r { texts = update k (some v) r.texts };
  put = λ k v r. record r { texts = update k (some v) r.texts };
  hgetall = λ h r. r.hashes h;
  hset = λ h k v r. record r { hashes = update h (insert k v (r.hashes h)) r.hashes };
  hdel = λ h k r. record r { hashes = update h (without k (r.hashes h)) r.hashes };
  xadd = λ s e r. record r { streams = update s (r.streams s ++ (e ∷ [])) r.streams };
  stream = λ s r. r.streams s;
}

lookup-insert :
    (j k v : String) (d : Dict String)
    → lookup j (insert k v d) ≡ (if text_eq k j then some v else lookup j d)
lookup-insert j k v [] = refl
lookup-insert j k v ((i, w) ∷ d) = ground (
  arith,
  text_eq_iff i j,
  text_eq_iff i k,
  text_eq_iff k j,
  text_eq_refl j,
  lookup-insert j k v d,
)

length-insert :
    (k v : String) (d : Dict String)
    → length (insert k v d) ≡ (if is_some (lookup k d) then length d else suc (length d))
length-insert k v [] = refl
length-insert k v ((i, w) ∷ d) = ground (arith, length-insert k v d)

lookup-without :
    (j k : String) (d : Dict String)
    → lookup j (without k d) ≡ (if text_eq k j then none else lookup j d)
lookup-without j k [] = ground arith
lookup-without j k ((i, w) ∷ d) =
    ground (arith, text_eq_iff i j, text_eq_iff i k, text_eq_iff k j, lookup-without j k d)

pub keyspace_laws : RedisLaws Keyspace
keyspace_laws = record {
  get-set = λ j k v t r. refl;
  get-put = λ j k v r. refl;
  hgetall-set = λ h k v t r. refl;
  stream-set = λ s k v t r. refl;
  lookup-hset = λ h j k v r. rw (text_eq_refl h) (lookup-insert j k v (r.hashes h));
  length-hset = λ h k v r. rw (text_eq_refl h) (length-insert k v (r.hashes h));
  get-hset = λ j h k v r. refl;
  stream-hset = λ s h k v r. refl;
  lookup-hdel = λ h j k r. rw (text_eq_refl h) (lookup-without j k (r.hashes h));
  get-xadd = λ k s e r. refl;
  hgetall-xadd = λ h s e r. refl;
  stream-xadd = λ s e r. rw (text_eq_refl s) refl;
  stream-xadd_ne = λ t s e r n. ground (arith, text_eq_iff s t, n);
}
