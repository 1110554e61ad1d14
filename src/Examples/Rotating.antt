-- ===== src/Examples/Rotating.antt =====
-- Two RPC URLs, of which the second answers.
use ma_at.Prelude.{
  ℕ, ◌+◌, ◌*◌, ◌≤◌, ◌<◌, ◌≡◌, refl, ◌⊎◌, ◌↔◌, true, false, none, List, [], ◌∷◌, if◌then◌else◌,
  length, keep_if, Text, text, text_eq, arith,
}
use ma_at.Prelude.Dict
use ma_at.Rpc.{Health, url_at, cool_down_until_ms, rotation_order, cooled_at}
use ma_at.Rpc.Spin.{Tries}
use ma_at.Rpc.Order.{rotation_order_iff, rotation_order-BestFirst, BestFirst}
use ma_at.Rpc.Transport.{
  answered, object, unreadable, result, Transport, Rotation, sweeps, attempt_sweep, try_each, post,
  after_post, after_sweep, rpc_post, note_failure, request,
}
use ma_at.Rpc.Answers.{IsResult, request-IsResult}
use ma_at.Rpc.Calls.{IsFailed, request-posts_bounds}

abbrev url_one : Text
url_one = 117 ∷ 49 ∷ []

abbrev url_two : Text
url_two = 117 ∷ 50 ∷ []

-- The first URL cools down until 5000, the second until 9000.
abbrev health : Health
health = (url_one, 5000) ∷ (url_two, 9000) ∷ []

abbrev urls : List Text
urls = url_one ∷ url_two ∷ []

abbrev transport : Transport ℕ ℕ
transport = record {
  urls = urls;
  client_label = text "Arbitrum";
  cooldown_sec = 1800;
  now_ms = λ w. w;
  fetch = λ url w. (
    if text_eq url url_two
        then answered true 200 (object none 7)
        else answered false 429 (unreadable []),
    w + 1,
  );
  sleep = λ ms w. w + ms;
}

abbrev fresh : Rotation ℕ
fresh = record { health = []; next_start_index = 0; warnings = []; posted = []; outside = 1000 }

falls_over : (request transport fresh).0 ≡ result 7
unfolding request sweeps attempt_sweep try_each post after_post after_sweep rpc_post rotation_order
    url_at text_eq keep_if Dict.get cool_down_until_ms note_failure
falls_over = refl

rotation_order_iff_example : Tries 1 (rotation_order urls 0 6000 health) ↔ (
    (cooled_at urls health 1 ≤ 6000) ⊎ ((i : ℕ) → i < length urls → 6000 < cooled_at urls health i))
rotation_order_iff_example = rotation_order_iff urls 0 6000 health 1 (omega arith)

rotation_order-BestFirst_example :
    BestFirst (cooled_at urls health) (length urls) 2000 (rotation_order urls 1 2000 health)
rotation_order-BestFirst_example = rotation_order-BestFirst urls 1 2000 health (omega arith)

request-IsResult_example : IsResult (request transport fresh).0
unfolding cool_down_until_ms Dict.get rpc_post text_eq url_at
request-IsResult_example = request-IsResult transport fresh 1 (omega arith) (omega arith) (λ o. tt)

request-posts_bounds_example :
    (length (request transport fresh).1.posted ≤ length fresh.posted + 4 * length urls)
    × (IsFailed (request transport fresh).0
        → length fresh.posted + 4 ≤ length (request transport fresh).1.posted)
request-posts_bounds_example = request-posts_bounds transport (omega arith) fresh
