-- ===== src/Sync/EraseSafety/Preparing.antt =====
-- Steps 1 to 5 hand the port no erase command.
use logfalcon.Prelude.{
  ℕ, refl, ◌⊎◌, inl, inr, Bool, true, false, not, ◌&&◌, Option, none, some, List, [], ◌∷◌, ltb,
  ◌==◌, on_if,
}
use logfalcon.Exec.{Outcome, ok, err, panic, Exec, continue}
use logfalcon.Fc.Detector.{FcInfo, DetectError, detect}
use logfalcon.Fc.Detector.Preserves.{detect_keeps}
use logfalcon.Msp.Client.{Client, ClientError, DataflashSummary, get_dataflash_summary, new_client}
use logfalcon.Msp.Client.Unerased.{
  Unerased, get_api_version-Unerased, get_fc_version-Unerased, get_fc_variant-Unerased,
  get_uid-Unerased, get_blackbox_config-Unerased, get_dataflash_summary-Unerased,
}
use logfalcon.Storage.Writer.{File, new_stream_writer}
use logfalcon.Sync.Status.{Message}
use logfalcon.Sync.World.{World, Config, Step, SyncResult, fail, both_results, on_client}
use logfalcon.Sync.Orchestrator.{open_port}
use logfalcon.Sync.Preparation.{
  client_methods, identified, identify_fc, judge_summary, query_flash_state, answer_free, or_zero,
  must_fit, make_room, must_be_made, open_output, check_storage_and_prepare, max_flash_used_size,
  required_bytes,
}
use logfalcon.Sync.EraseSafety.{Idle, Reaches, Copying}

module _ {A B : Type 0} (P : A → World → Type 0) (Q : B → World → Type 0) (f : A → Step B) where
  pub Reaches-bind :
      (r : Outcome SyncResult A × World)
      → Reaches P r
      → ((a : A) (w : World) → P a w → Reaches Q (f a w))
      → Reaches Q (continue r f)
  Reaches-bind (ok a, w) p h = h a w p
  Reaches-bind (err e, w) p h = p
  Reaches-bind (panic, w) p h = p

-- Nothing is asked of the value.
abbrev pub AnyIdle : {A : Type 0} → A → World → Type 0
AnyIdle a w = Idle w

pub on_client-Reaches :
    {E A : Type 0} (m : Exec Client E A) (w : World)
    → Unerased (m w.client).1
    → Reaches AnyIdle (on_client m w)
on_client-Reaches {E} {A} m w h = go ((m w.client).0)
  where
    go : (r : Outcome E A) → Reaches AnyIdle (both_results r, record w { client = (m w.client).1 })
    go (ok a) = h
    go (err e) = h
    go panic = h

pub fail-Reaches :
    {A : Type 0} (P : A → World → Type 0) (message : Message) (w : World)
    → Idle w
    → Reaches P (fail message w)
unfolding fail
fail-Reaches P message w h = h

pub open_port-Reaches : (w : World) → Idle w → Reaches AnyIdle (open_port w)
unfolding open_port new_client fail
open_port-Reaches w h = on_if (Reaches AnyIdle) w.port_opens _ _ (λ _. h) (λ _. h)

identified-Reaches :
    (found : FcInfo ⊎ DetectError ClientError) (w : World)
    → Idle w
    → Reaches AnyIdle (identified found w)
unfolding identified fail
identified-Reaches (inl info) w h = h
identified-Reaches (inr e) w h = h

pub identify_fc-Reaches : (w : World) → Idle w → Reaches AnyIdle (identify_fc w)
unfolding identify_fc
identify_fc-Reaches w h =
    Reaches-bind AnyIdle AnyIdle identified (on_client (detect client_methods) w)
      (on_client-Reaches (detect client_methods) w (
        detect_keeps client_methods Unerased get_api_version-Unerased get_fc_version-Unerased
          get_fc_variant-Unerased get_uid-Unerased get_blackbox_config-Unerased w.client h))
      identified-Reaches

judge_summary-Reaches :
    (found : DataflashSummary ⊎ ClientError) (w : World)
    → Idle w
    → Reaches AnyIdle (judge_summary found w)
unfolding judge_summary fail
judge_summary-Reaches (inr e) w h = h
judge_summary-Reaches (inl summary) w h =
    on_if holds (not summary.supported) _ _ (λ _. h)
      (λ _.
        on_if holds (not summary.ready) _ _ (λ _. h)
          (λ _.
            on_if holds (summary.used_size == 0) _ _ (λ _. h)
              (λ _. on_if holds (ltb max_flash_used_size summary.used_size) _ _ (λ _. h) (λ _. h))))
  where
    holds : Step ℕ → Type 0
    holds m = Reaches AnyIdle (m w)

pub query_flash_state-Reaches : (w : World) → Idle w → Reaches AnyIdle (query_flash_state w)
unfolding query_flash_state
query_flash_state-Reaches w h =
    Reaches-bind AnyIdle AnyIdle judge_summary (on_client get_dataflash_summary w)
      (on_client-Reaches get_dataflash_summary w (get_dataflash_summary-Unerased w.client h))
      judge_summary-Reaches

answer_free-Reaches :
    (answers : List (Option ℕ)) (w : World) → Idle w → Reaches AnyIdle (answer_free answers w)
answer_free-Reaches [] w h = h
answer_free-Reaches (free ∷ rest) w h = h

must_be_made-Reaches :
    (made : Bool) (message : Message) (w : World)
    → Idle w
    → Reaches AnyIdle (must_be_made made message w)
unfolding must_be_made fail
must_be_made-Reaches true message w h = h
must_be_made-Reaches false message w h = h

open_output-Reaches :
    (output : Option File) (w : World) → Idle w → Reaches (λ _. Copying) (open_output output w)
unfolding open_output fail new_stream_writer
open_output-Reaches none w h = h
open_output-Reaches (some f) w h = (h, record { kept = refl; counted = refl })

module _ (cfg : Config) (used_size : ℕ) where
  must_fit-Reaches :
      (available : ℕ) (w : World) → Idle w → Reaches AnyIdle (must_fit cfg used_size available w)
  unfolding must_fit fail
  must_fit-Reaches available w h =
      on_if holds (ltb available (required_bytes cfg used_size)) _ _ (λ _. h) (λ _. h)
    where
      holds : Step (Unit {0}) → Type 0
      holds m = Reaches AnyIdle (m w)

  make_room-Reaches :
      (free : Option ℕ) (w : World) → Idle w → Reaches AnyIdle (make_room cfg used_size free w)
  unfolding make_room fail
  make_room-Reaches none w h = h
  make_room-Reaches (some available) w h =
      on_if holds (ltb available (required_bytes cfg used_size) && cfg.storage_pressure_cleanup) _ _
        (λ _.
          Reaches-bind AnyIdle AnyIdle _ (answer_free w.free_bytes _)
            (answer_free-Reaches w.free_bytes _ h)
            (λ freed v k. must_fit-Reaches (or_zero freed) v k))
        (λ _. must_fit-Reaches available w h)
    where
      holds : Step (Unit {0}) → Type 0
      holds m = Reaches AnyIdle (m w)

  pub check_storage_and_prepare-Reaches :
      (w : World) → Idle w → Reaches (λ _. Copying) (check_storage_and_prepare cfg used_size w)
  unfolding check_storage_and_prepare
  check_storage_and_prepare-Reaches w h =
      Reaches-bind AnyIdle (λ _. Copying) _ (must_be_made w.storage_made _ w)
        (must_be_made-Reaches w.storage_made _ w h)
        (λ _ w1 h1.
          Reaches-bind AnyIdle (λ _. Copying) _ (answer_free w1.free_bytes w1)
            (answer_free-Reaches w1.free_bytes w1 h1)
            (λ free w2 h2.
              Reaches-bind AnyIdle (λ _. Copying) _ (make_room cfg used_size free w2)
                (make_room-Reaches free w2 h2)
                (λ _ w3 h3.
                  Reaches-bind AnyIdle (λ _. Copying) _ (must_be_made w3.session_made _ w3)
                    (must_be_made-Reaches w3.session_made _ w3 h3)
                    (λ _ w4 h4. open_output-Reaches w4.output w4 h4))))
