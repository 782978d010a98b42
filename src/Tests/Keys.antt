-- ===== src/Tests/Keys.antt =====
-- The theorems on the key schedule, at a suite whose hash has two bytes.
use embedded_tls.Prelude.{
  ℕ, ◌+◌, ◌*◌, ◌≤◌, ◌≡◌, refl, ap, ap₂, ◌↔◌, Bool, true, false, List, [], ◌∷◌, ◌++◌, Option, none,
  some, arith, append_assoc, length, replicate, length-replicate, leb, ◌==◌, ==_iff, Bool-cases,
  inl, inr, sym, ◌∙◌, if◌then◌else◌,
}
use embedded_tls.Exec.{ok}
use embedded_tls.Heapless.{bounded}
use embedded_tls.Digest.{Digest}
use embedded_tls.Hkdf.{Hkdf}
use embedded_tls.Suite.{Suite}
use embedded_tls.Handshake.Finished.{Finished}
use embedded_tls.KeySchedule.{KeyScheduleState}
use embedded_tls.KeySchedule.Labels.{ext_binder, c_ap_traffic, s_ap_traffic, derived}
use embedded_tls.KeySchedule.Secrets.{
  hash, KeySchedule, new, empty_hash, make_expanded_hkdf_label, create_client_finished,
  verify_server_finished,
}
use embedded_tls.KeySchedule.Secrets.Expand.{make_expanded_hkdf_label_lem}
use embedded_tls.KeySchedule.Secrets.Refine.{
  derive, traffic, next, early_secret, master_secret, key_schedule, key_schedule_refines,
}
use embedded_tls.KeySchedule.Secrets.Verified.{
  finished_key, create_client_finished_lem, verify_server_finished-Tagged,
}
use embedded_tls.Tests.{marking}

-- It keeps all it was fed, and its hash is the number of bytes.
abbrev pub counting : Digest
counting = record {
  State = List ℕ;
  new = [];
  update = λ h xs. h ++ xs;
  finalize = λ h. length h ∷ 0 ∷ [];
  output_size = 2;
  output_size_small = omega arith;
  length-finalize = λ h. refl;
  update-update = λ h xs ys. append_assoc h xs ys;
}

abbrev okm : List ℕ → List ℕ → ℕ → List ℕ
okm prk info n = replicate n (length prk + length info)

abbrev expand : List ℕ → List ℕ → ℕ → Option (List ℕ)
expand prk info n = if leb n (255 * 2) then some (okm prk info n) else none

pub expand_ok :
    (prk info : List ℕ) (n : ℕ) → n ≤ 255 * 2 → expand prk info n ≡ some (okm prk info n)
expand_ok prk info n p = ground arith

abbrev from_prk : List ℕ → Option (List ℕ)
from_prk prk = if leb 2 (length prk) then some prk else none

pub from_prk_ok : (prk : List ℕ) → 2 ≤ length prk → from_prk prk ≡ some prk
from_prk_ok prk p = ground arith

abbrev same : List ℕ → List ℕ → Bool
same [] [] = true
same [] (y ∷ ys) = false
same (x ∷ xs) [] = false
same (x ∷ xs) (y ∷ ys) = if x == y then same xs ys else false

same_refl : (xs : List ℕ) → same xs xs ≡ true
same_refl [] = refl
same_refl (x ∷ xs) = ground (arith, same_refl xs)

same→≡ : (xs ys : List ℕ) → same xs ys ≡ true → xs ≡ ys
same→≡ [] [] p = refl
same→≡ [] (y ∷ ys) p = cc
same→≡ (x ∷ xs) [] p = cc
same→≡ (x ∷ xs) (y ∷ ys) p = elim (Bool-cases (x == y)) [
  | inl q ↦
      ap₂ (λ a b. a ∷ b) ((==_iff x y).0 q)
        (same→≡ xs ys (sym (ap (λ b. if b then same xs ys else false) q) ∙ p))
  | inr q ↦ cc
]

abbrev tag : List ℕ → List ℕ → List ℕ
tag key message = key ++ message

pub verify_ok :
    (key message code : List ℕ)
    → (some (same code (tag key message)) ≡ some true) ↔ (code ≡ tag key message)
verify_ok key message code =
    (λ p. same→≡ code (tag key message) cc, λ p. rw (p, same_refl (tag key message)))

abbrev pub toy_hkdf : Hkdf 2
toy_hkdf = record {
  extract = λ salt ikm. length salt ∷ length ikm ∷ [];
  length-extract = λ salt ikm. refl;
  okm = okm;
  length-okm = λ prk info n. length-replicate n (length prk + length info);
  expand = expand;
  expand_ok = expand_ok;
  from_prk = from_prk;
  from_prk_ok = from_prk_ok;
  tag = tag;
  mac = λ key message. some (tag key message);
  mac_ok = λ key message. refl;
  verify = λ key message code. some (same code (tag key message));
  verify_ok = verify_ok;
}

abbrev pub toy : Suite
toy = record {
  code_point = 0x1301;
  digest = counting;
  hkdf = toy_hkdf;
  aead = marking;
  key_len = 16;
  key_len_fits = omega arith;
  iv_len_fits = omega arith;
}

make_expanded_hkdf_label_lem_example :
    make_expanded_hkdf_label toy (some (1 ∷ [])) 4 derived (hash (7 ∷ 8 ∷ [])) tt
    ≡ (ok (20 ∷ 20 ∷ 20 ∷ 20 ∷ []), tt {0})
make_expanded_hkdf_label_lem_example =
    make_expanded_hkdf_label_lem toy tt (1 ∷ []) 4 derived (hash (7 ∷ 8 ∷ [])) (omega arith) refl
      (omega arith)

key_schedule_refines_example :
    let master = master_secret toy none (9 ∷ []) in
    key_schedule toy none (1 ∷ []) (9 ∷ []) (1 ∷ 2 ∷ []) (new toy) ≡ (
      ok tt,
      record {
        shared = record { secret = next toy master; hkdf = some master };
        client_state = record {
          state = traffic toy master c_ap_traffic (1 ∷ 2 ∷ []);
          binder_key = some (derive toy (early_secret toy none) ext_binder (empty_hash toy));
        };
        server_state = record {
          state = traffic toy master s_ap_traffic (1 ∷ 2 ∷ []);
          transcript_hash = 1 ∷ 2 ∷ [];
        };
      },
    )
key_schedule_refines_example = key_schedule_refines toy none (1 ∷ []) (9 ∷ []) (1 ∷ 2 ∷ [])

abbrev pub with_secret : KeyScheduleState
with_secret = record { traffic_secret = some (3 ∷ 4 ∷ []); counter = 0; key = []; iv = [] }

abbrev pub schedule : KeySchedule toy
schedule = record {
  shared = record { secret = []; hkdf = none };
  client_state = record { state = with_secret; binder_key = none };
  server_state = record { state = with_secret; transcript_hash = 5 ∷ [] };
}

create_client_finished_lem_example :
    create_client_finished toy schedule
    ≡ (ok (record { verify = 20 ∷ 20 ∷ 1 ∷ 0 ∷ []; hash = none }), schedule)
create_client_finished_lem_example = create_client_finished_lem toy schedule (3 ∷ 4 ∷ []) refl

abbrev pub server_finished : Finished
server_finished = record { verify = 20 ∷ 20 ∷ 6 ∷ []; hash = some (6 ∷ []) }

verify_server_finished-Tagged_example :
    ((verify_server_finished toy server_finished schedule.server_state).0 ≡ ok true)
    ↔ (server_finished.verify ≡ tag (finished_key toy (3 ∷ 4 ∷ [])) (6 ∷ []))
verify_server_finished-Tagged_example =
    verify_server_finished-Tagged toy schedule.server_state server_finished (3 ∷ 4 ∷ []) (6 ∷ [])
      refl refl
