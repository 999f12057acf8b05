-- ===== src/Engine/Core.antt =====
-- `LLMEngine` of cudaforge/engine.py, over the native extension.
use cudaforge.Prelude.{
  ℕ, ◌+◌, Bool, true, false, ◌&&◌, ◌||◌, ltb, List, [], ◌∷◌, Option, none, some, Dict, lookup,
  insert, erase, nat_eq, if◌then◌else◌,
}
use cudaforge.Prelude.Int.{ℤ, pos, negsuc, int_beq}
use cudaforge.Engine.Types.{
  SamplingParams, default_params, EngineConfig, to_native_kv_config, StreamOutput, GenerationOutput,
}
use cudaforge.Engine.Native.{Native, Result, ok, raised, Call, pure, ◌>>=◌, ◌>>◌}

pub record LlmEngine (native : Native) : Type 0 where
  pub config : EngineConfig
  pub request_counter : ℕ
  pub active_requests : Dict ℕ SamplingParams
  pub runtime : native.State

pub mem : ℤ → List ℤ → Bool
mem t [] = false
mem t (x ∷ xs) = int_beq t x || mem t xs

-- The stop tokens are those of the request, if it is still active.
unfoldable pub stops : Dict ℕ SamplingParams → StreamOutput → Bool
unfolding mem
stops active out = elim (lookup out.request_id active) [
  | none ↦ false
  | some params ↦ mem out.token_id params.stop_token_ids
]

unfoldable pub finalize : Dict ℕ SamplingParams → StreamOutput → GenerationOutput
unfolding stops
finalize active out = record {
  request_id = out.request_id;
  token_id = out.token_id;
  is_final = out.is_final || stops active out;
  error = none;
}

-- The identifiers that go onto `finished_req_ids`, in order.
unfoldable pub note_finished : GenerationOutput → List ℕ → List ℕ
note_finished out ids = if out.is_final then out.request_id ∷ ids else ids

unfoldable pub forget : List ℕ → Dict ℕ SamplingParams → Dict ℕ SamplingParams
forget [] active = active
forget (i ∷ ids) active = forget ids (erase i active)

unfoldable pub or_default : Option SamplingParams → SamplingParams
or_default none = default_params
or_default (some p) = p

abbrev fits_int32 : ℤ → Bool
fits_int32 (pos n) = ltb n 2147483648
fits_int32 (negsuc n) = ltb n 2147483648

-- The conversions of `_C.Request` succeed; those of the prompt have succeeded in the registration.
unfoldable pub is_native : SamplingParams → Bool
is_native p = fits_int32 p.max_tokens && fits_int32 p.priority

module _ (native : Native) where
  open native use {State, construct}

  -- `__init__`; the flag is `_HAS_NATIVE_EXTENSION`.
  unfoldable pub create : Bool → EngineConfig → Result (LlmEngine native)
  create false config = raised
  create true config = ok (record {
    config = config;
    request_counter = 0;
    active_requests = [];
    runtime =
        construct (to_native_kv_config config) config.total_gpu_blocks config.block_size
          config.max_num_seqs config.max_num_batched_tokens config.vocab_size config.eos_token_id;
  })

  -- The batcher's answer is dropped, as in the source. The constructor of the request raises on an
  -- argument that is no 32-bit integer; the sequence stays registered then.
  unfoldable pub add_request : List ℤ → Option SamplingParams → Call (LlmEngine native) ℕ
  unfolding or_default is_native
  add_request prompt params e =
      let p = or_default params in
      let req_id = e.request_counter + 1 in
      let (matched, s) = native.register_sequence_with_prefix req_id prompt e.runtime in
      elim matched [
        | raised ↦ (raised, record e { request_counter = req_id; runtime = s })
        | ok _ ↦
            if is_native p
            then (
              ok req_id,
              record e {
                request_counter = req_id;
                active_requests = insert req_id p e.active_requests;
                runtime = (native.add_request req_id prompt p.max_tokens p.priority s).1;
              },
            )
            else (raised, record e { request_counter = req_id; runtime = s })
      ]

  unfoldable pub append_unless : Bool → ℕ → Call State (Unit {0})
  append_unless true i = pure tt
  append_unless false i = native.append_tokens i 1

  -- The loop of `step` over the popped outputs: the results and the finished identifiers.
  unfoldable pub collect :
      Dict ℕ SamplingParams → List StreamOutput → Call State (List GenerationOutput × List ℕ)
  unfolding append_unless finalize note_finished
  collect active [] = pure ([], [])
  collect active (out ∷ outs) = do
    let result = finalize active out
    append_unless result.is_final result.request_id
    rest ← collect active outs
    pure (result ∷ rest.0, note_finished result rest.1)

  unfoldable pub unregister_all : List ℕ → State → State
  unregister_all [] s = s
  unregister_all (i ∷ ids) s = unregister_all ids (native.unregister_sequence i s)

  -- `if finished_req_ids:` and the cleanup under it
  unfoldable pub clean_up : List ℕ → LlmEngine native → LlmEngine native
  unfolding unregister_all forget
  clean_up [] e = e
  clean_up (i ∷ ids) e = record e {
    active_requests = forget (i ∷ ids) e.active_requests;
    runtime = unregister_all (i ∷ ids) (native.update_requests_state (i ∷ ids) e.runtime);
  }

  unfoldable pub step : Call (LlmEngine native) (List GenerationOutput)
  unfolding collect clean_up
  step e =
      let (outs, s) = native.pop_all (native.runner_step e.runtime) in
      let (r, s') = collect e.active_requests outs s in
      elim r [
        | raised ↦ (raised, record e { runtime = s' })
        | ok (results, finished) ↦ (ok results, clean_up finished (record e { runtime = s' }))
      ]

  unfoldable pub cancel_request : ℕ → LlmEngine native → LlmEngine native
  cancel_request i e = record e {
    active_requests = erase i e.active_requests;
    runtime = native.unregister_sequence i (native.runner_cancel_request i e.runtime);
  }
