-- ===== src/Examples/Digests.antt =====
-- Digests of concrete messages. The toy hash has collisions, and two messages that differ in their
-- data only have one digest.
use stylus_mobile_native_aut.Base.{ℕ, ◌≡◌, refl, ◌⊎◌, [], ◌∷◌, List, some, arith}
use stylus_mobile_native_aut.Bytes.{Bytes, to_be_bytes, from_be}
use stylus_mobile_native_aut.Eip712.{
  word, compute_batch_hash, compute_execute_hash, compute_rotate_hash, execute_buf, eip712_envelope,
  envelope_buf,
}
use stylus_mobile_native_aut.Eip712.Message.{Message, execute, digest_of, hashed}
use stylus_mobile_native_aut.Eip712.Collision.{Collision}
use stylus_mobile_native_aut.Eip712.Batch.{typed_batch_digest, compute_batch_hash_total}
use stylus_mobile_native_aut.Eip712.Binding.{digest-binding}
use stylus_mobile_native_aut.Harness.{execute_hash, rotate_hash}
use stylus_mobile_native_aut.Harness.Digests.{keccak256, execute_hash-agrees, rotate_hash-agrees}
use stylus_mobile_native_aut.Examples.{toy_keccak, toy_keccak_word}

abbrev chain : ℕ
chain = 412346

abbrev account : ℕ
account = 0xacc

abbrev short : Message
short = execute 0xc0de 1 (7 ∷ []) 4

abbrev long : Message
long = execute 0xc0de 1 (1 ∷ 0 ∷ []) 4

one_digest : digest_of toy_keccak 412346 0xacc short ≡ digest_of toy_keccak 412346 0xacc long
unfolding compute_execute_hash eip712_envelope envelope_buf execute_buf from_be to_be_bytes
one_digest = refl

digest-binding_example :
    ((chain ≡ chain) × (account ≡ account) × (short ≡ long))
    ⊎ Collision toy_keccak
        (hashed toy_keccak 412346 0xacc short)
        (hashed toy_keccak 412346 0xacc long)
digest-binding_example =
    digest-binding toy_keccak toy_keccak_word 412346 412346 0xacc 0xacc short long (omega arith)
      (omega arith) (omega arith) (omega arith) (omega arith, omega arith, omega arith)
      (omega arith, omega arith, omega arith) one_digest

abbrev two : List ℕ
two = 0xc0de ∷ 0xdead ∷ []

abbrev datas : List Bytes
datas = [] ∷ (1 ∷ []) ∷ []

compute_batch_hash_total_example :
    compute_batch_hash toy_keccak 412346 0xacc two two datas 4
    ≡ some (typed_batch_digest toy_keccak 412346 0xacc two two datas 4)
compute_batch_hash_total_example =
    compute_batch_hash_total toy_keccak 412346 0xacc two two datas 4 refl refl

execute_hash-agrees_example :
    execute_hash
      (keccak256 toy_keccak)
      412346
      (to_be_bytes 20 0xacc)
      (to_be_bytes 20 0xc0de)
      (word 5)
      (1 ∷ [])
      (word 4)
    ≡ word (compute_execute_hash toy_keccak 412346 0xacc 0xc0de 5 (1 ∷ []) 4)
execute_hash-agrees_example = execute_hash-agrees toy_keccak 412346 0xacc 0xc0de 5 (1 ∷ []) 4

rotate_hash-agrees_example :
    rotate_hash (keccak256 toy_keccak) 412346 (to_be_bytes 20 0xacc) (word 8) (word 9) (word 4)
    ≡ word (compute_rotate_hash toy_keccak 412346 0xacc 8 9 4)
rotate_hash-agrees_example = rotate_hash-agrees toy_keccak 412346 0xacc 8 9 4
