-- ===== src/Tests/Codec.antt =====
-- A codec: a text is written with each point one higher and a 0 behind it, a message as its fields.
use casper_cloud.Prelude.{◌≡◌, refl, ap, ℕ, zero, suc, Option, none, some, [], ◌∷◌, Text}
use casper_cloud.Worker.Messages.{WireMessage, Codec, CodecLaws}

abbrev pub put : Text → Text → Text
put [] r = 0 ∷ r
put (c ∷ s) r = suc c ∷ put s r

abbrev begin_with : ℕ → Option (Text × Text) → Option (Text × Text)
begin_with c none = none
begin_with c (some (s, r)) = some (c ∷ s, r)

unfoldable pub take_field : Text → Option (Text × Text)
take_field [] = none
take_field (zero ∷ r) = some ([], r)
take_field (suc c ∷ r) = begin_with c (take_field r)

pub take_field-put : (s r : Text) → take_field (put s r) ≡ some (s, r)
unfolding take_field
take_field-put [] r = refl
take_field-put (c ∷ s) r = ap (begin_with c) (take_field-put s r)

abbrev pub then_field : {A : Type 0} → Option (Text × Text) → (Text → Text → Option A) → Option A
then_field none k = none
then_field (some (s, r)) k = k s r

abbrev encode : WireMessage → Text
encode m = put m.task_id (
    put m.type (
      put m.project_id (
        put m.instance_id (
          put m.snapshot_id
            (put m.prior_state (put m.floating_ip_id (put m.public_ip (put m.private_ip []))))))))

unfoldable pub decode : Text → Option WireMessage
unfolding take_field
decode s = then_field (take_field s) λ a s₁. then_field (take_field s₁) λ b s₂.
    then_field (take_field s₂) λ d s₃. then_field (take_field s₃) λ e s₄.
      then_field (take_field s₄) λ f s₅. then_field (take_field s₅) λ g s₆.
        then_field (take_field s₆) λ h s₇. then_field (take_field s₇) λ i s₈.
          then_field (take_field s₈) λ j s₉. some record {
            task_id = a;
            type = b;
            project_id = d;
            instance_id = e;
            snapshot_id = f;
            prior_state = g;
            floating_ip_id = h;
            public_ip = i;
            private_ip = j;
          }

decode-encode : (m : WireMessage) → decode (encode m) ≡ some m
unfolding decode
decode-encode m = simp take_field-put refl

abbrev one_point : Text → Option ℕ
one_point [] = none
one_point (c ∷ []) = some c
one_point (c ∷ d ∷ s) = none

abbrev first_point : Text → ℕ
first_point [] = 0
first_point (c ∷ s) = c

abbrev pub codec : Codec
codec = record {
  encode = encode;
  decode = decode;
  uuid_text = λ i. i ∷ [];
  parse_uuid = one_point;
  ip_text = λ a. a ∷ [];
  ip_of_text = first_point;
}

pub codec-CodecLaws : CodecLaws codec
codec-CodecLaws = record {
  decode-encode = decode-encode;
  parse-uuid_text = λ i. refl;
  uuid_text_filled = λ i. refl;
  ip_of_text-ip_text = λ a. refl;
  ip_text_filled = λ a. refl;
}
