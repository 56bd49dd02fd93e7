-- ===== src/Redis.antt =====
-- Redis, as far as the services use it beside the limiter: text values, hashes and streams in a
-- keyspace `R`. `stream s r` lists the entries of a stream, and is for statements only.
use vix_75_platform.Base.{
  ℕ, suc, String, ◌≡◌, ◌≢◌, Option, none, some, List, [], ◌∷◌, ◌++◌, length, if◌then◌else◌, is_some,
}
use vix_75_platform.Base.Dict.{Dict, lookup, text_eq}

pub record Redis (R : Type 0) : Type 0 where
  pub get : String → R → Option String
  -- `SET key value EX seconds`
  pub set : String → String → ℕ → R → R
  -- `SET key value`
  pub put : String → String → R → R
  pub hgetall : String → R → Dict String
  pub hset : String → String → String → R → R
  pub hdel : String → String → R → R
  pub xadd : String → Dict String → R → R
  pub stream : String → R → List (Dict String)

-- The documented effects of the commands, and what each leaves alone.
pub record RedisLaws (R : Type 0) ⦃c : Redis R⦄ : Type 0 where
  pub get-set :
      (j k v : String) (t : ℕ) (r : R)
      → c.get j (c.set k v t r) ≡ (if text_eq k j then some v else c.get j r)
  pub get-put :
      (j k v : String) (r : R) → c.get j (c.put k v r) ≡ (if text_eq k j then some v else c.get j r)
  pub hgetall-set : (h k v : String) (t : ℕ) (r : R) → c.hgetall h (c.set k v t r) ≡ c.hgetall h r
  pub stream-set : (s k v : String) (t : ℕ) (r : R) → c.stream s (c.set k v t r) ≡ c.stream s r
  pub lookup-hset :
      (h j k v : String) (r : R)
      → lookup j (c.hgetall h (c.hset h k v r))
        ≡ (if text_eq k j then some v else lookup j (c.hgetall h r))
  pub length-hset :
      (h k v : String) (r : R)
      → length (c.hgetall h (c.hset h k v r)) ≡ (
          if is_some (lookup k (c.hgetall h r))
          then length (c.hgetall h r)
          else suc (length (c.hgetall h r)))
  pub get-hset : (j h k v : String) (r : R) → c.get j (c.hset h k v r) ≡ c.get j r
  pub stream-hset : (s h k v : String) (r : R) → c.stream s (c.hset h k v r) ≡ c.stream s r
  pub lookup-hdel :
      (h j k : String) (r : R)
      → lookup j (c.hgetall h (c.hdel h k r))
        ≡ (if text_eq k j then none else lookup j (c.hgetall h r))
  pub get-xadd : (k s : String) (e : Dict String) (r : R) → c.get k (c.xadd s e r) ≡ c.get k r
  pub hgetall-xadd :
      (h s : String) (e : Dict String) (r : R) → c.hgetall h (c.xadd s e r) ≡ c.hgetall h r
  pub stream-xadd :
      (s : String) (e : Dict String) (r : R) → c.stream s (c.xadd s e r) ≡ c.stream s r ++ (e ∷ [])
  pub stream-xadd_ne :
      (t s : String) (e : Dict String) (r : R) → t ≢ s → c.stream t (c.xadd s e r) ≡ c.stream t r
