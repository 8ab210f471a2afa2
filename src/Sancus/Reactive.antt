-- ===== src/Sancus/Reactive.antt =====
-- __sm_handle_input of sancus/t2w/t2w_2_authentic_execution/main.c. SANCUS_TAG_SIZE, SANCUS_KEY_SIZE
-- and sancus_unwrap_with_key are the library's.
use pandora_examples.Prelude.{
  ℕ, zero, suc, ◌+◌, ◌*◌, ◌-◌, ◌%◌, ◌^◌, ◌≤◌, ◌<◌, ◌≡◌, refl, arith, Option, none, some, leb,
  le→leb, not_leb, if◌then◌else◌,
}

abbrev pub ad_size : ℕ
ad_size = 2

abbrev pub sm_num_inputs : ℕ
sm_num_inputs = 100

-- Where the module's data is, and what the library's header says.
pub record Env : Type 0 where
  pub sm_io_keys : ℕ
  pub tag_size : ℕ
  pub key_size : ℕ

-- The arguments of the call of sancus_unwrap_with_key.
pub record Unwrap : Type 0 where
  pub key : ℕ
  pub ad : ℕ
  pub ad_len : ℕ
  pub cipher : ℕ
  pub cipher_len : ℕ
  pub tag : ℕ
  pub output : ℕ

-- `len - AD_SIZE - SANCUS_TAG_SIZE`
unfoldable pub data_len : Env → ℕ → ℕ
data_len e len = (len + 2 * 2 ^ 16 - ad_size - e.tag_size) % 2 ^ 16

-- The arguments for an input of a known connection, when the stack pointer is `sp`: `alloca` takes
-- the output from the stack, exactly as many bytes as are asked for.
unfoldable pub unwrap_of : Env → (sp conn_id payload len : ℕ) → Unwrap
unfolding data_len
unwrap_of e sp conn_id payload len =
    let cipher = (payload + ad_size) % 2 ^ 16 in
    record {
      key = (e.sm_io_keys + e.key_size * conn_id) % 2 ^ 16;
      ad = payload;
      ad_len = ad_size;
      cipher = cipher;
      cipher_len = data_len e len;
      tag = (cipher + data_len e len) % 2 ^ 16;
      output = (sp + 2 ^ 16 - data_len e len) % 2 ^ 16;
    }

-- The call that is made for an input, where one is: nothing is done with its result.
unfoldable pub sm_handle_input : Env → (sp conn_id payload len : ℕ) → Option Unwrap
unfolding unwrap_of
sm_handle_input e sp conn_id payload len =
    if leb sm_num_inputs conn_id then none else some (unwrap_of e sp conn_id payload len)

-- The pieces that the library is given make up the payload: the associated data, the cipher and the
-- tag lie behind each other and end where it ends, the key is one of the hundred, and the output
-- is as long as the cipher, just below the stack pointer.
pub record Fits (e : Env) (sp payload len : ℕ) (u : Unwrap) : Type 0 where
  pub key_low : e.sm_io_keys ≤ u.key
  pub key_high : u.key + e.key_size ≤ e.sm_io_keys + e.key_size * sm_num_inputs
  pub ad_first : u.ad ≡ payload
  pub cipher_next : u.cipher ≡ u.ad + u.ad_len
  pub tag_next : u.tag ≡ u.cipher + u.cipher_len
  pub tag_last : u.tag + e.tag_size ≡ payload + len
  pub output_below : u.output + u.cipher_len ≡ sp

keys_in_table : (size i : ℕ) → i < sm_num_inputs → size * i + size ≤ size * sm_num_inputs
keys_in_table zero i lt = omega arith
keys_in_table (suc size) i lt = omega (arith, keys_in_table size i lt)

-- The call for a payload that is long enough.
sm_handle_input-Fits :
    (e : Env) (sp conn_id payload len : ℕ)
    → conn_id < sm_num_inputs
    → e.sm_io_keys + e.key_size * sm_num_inputs ≤ 2 ^ 16
    → 0 < e.key_size
    → ad_size + e.tag_size ≤ len
    → payload + len < 2 ^ 16
    → len ≤ sp
    → sp < 2 ^ 16
    → (u : Unwrap) × (sm_handle_input e sp conn_id payload len ≡ some u) × Fits e sp payload len u
unfolding sm_handle_input unwrap_of data_len
sm_handle_input-Fits e sp conn_id payload len known keys key enough fits room stack =
    let table = keys_in_table e.key_size conn_id known in
    (
      unwrap_of e sp conn_id payload len,
      rw (not_leb sm_num_inputs conn_id known) refl,
      record {
        key_low = omega arith;
        key_high = omega arith;
        ad_first = refl;
        cipher_next = omega arith;
        tag_next = omega arith;
        tag_last = omega arith;
        output_below = omega arith;
      },
    )

sm_handle_input-none :
    (e : Env) (sp conn_id payload len : ℕ)
    → sm_num_inputs ≤ conn_id
    → sm_handle_input e sp conn_id payload len ≡ none
unfolding sm_handle_input
sm_handle_input-none e sp conn_id payload len past = rw (le→leb sm_num_inputs conn_id past) refl

-- The call for a payload that is too short.
sm_handle_input_short :
    (e : Env) (sp conn_id payload len d : ℕ)
    → conn_id < sm_num_inputs
    → 0 < d
    → len + d ≡ ad_size + e.tag_size
    → ad_size + e.tag_size ≤ 2 ^ 16
    → (u : Unwrap) × (sm_handle_input e sp conn_id payload len ≡ some u)
      × (u.cipher_len + d ≡ 2 ^ 16)
unfolding sm_handle_input unwrap_of data_len
sm_handle_input_short e sp conn_id payload len d known pos too_short tag =
    (unwrap_of e sp conn_id payload len, rw (not_leb sm_num_inputs conn_id known) refl, omega arith)

-- For a connection past the hundredth the library is not called. For the others it is, with pieces
-- that fit the payload and a key of the table, where the payload of `len` bytes holds the associated
-- data and the tag, and neither it nor the table of keys wraps, nor the stack below `sp`. A
-- payload of `short` bytes, `d` too few for the associated data and the tag, is unwrapped all the
-- same, with a cipher of 2 ^ 16 - `d` bytes.
pub sm_handle_input_lem :
    (e : Env) (sp unknown known payload len short d : ℕ)
    → sm_num_inputs ≤ unknown
    → known < sm_num_inputs
    → e.sm_io_keys + e.key_size * sm_num_inputs ≤ 2 ^ 16
    → 0 < e.key_size
    → ad_size + e.tag_size ≤ len
    → payload + len < 2 ^ 16
    → len ≤ sp
    → sp < 2 ^ 16
    → 0 < d
    → short + d ≡ ad_size + e.tag_size
    → (sm_handle_input e sp unknown payload len ≡ none)
      × ((u : Unwrap) × (sm_handle_input e sp known payload len ≡ some u) × Fits e sp payload len u)
      × ((u : Unwrap) × (sm_handle_input e sp known payload short ≡ some u)
          × (u.cipher_len + d ≡ 2 ^ 16))
sm_handle_input_lem e sp unknown known payload len short d past in_table keys key enough fits room
      stack pos too_short =
    (
      sm_handle_input-none e sp unknown payload len past,
      sm_handle_input-Fits e sp known payload len in_table keys key enough fits room stack,
      sm_handle_input_short e sp known payload short d in_table pos too_short (omega arith),
    )
