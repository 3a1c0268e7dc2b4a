-- ===== src/Examples/Answers.antt =====
-- The API's resource handlers on concrete requests.
use nephos.Base.{ℕ, ◌≡◌, refl, true, false, none, some, [], ◌∷◌, Str, codes}
use nephos.Errors.{invalid_parameter_value}
use nephos.Service.Network.{CreateVpcInput}
use nephos.Service.Instances.{RunInstanceInput}
use nephos.Api.Replies.{Body, Http, api_error, service_code, invalid_workspace, unchanged}
use nephos.Api.Resources.{
  http_create_vpc, http_create_subnet, http_run_instance, http_delete_vpc, http_delete_subnet,
  http_terminate_instance, http_get_vpc,
}
use nephos.Api.Resources.Effects.{EffectOf, resource_effects}
use nephos.Examples.Codecs.{vpc_codec, subnet_codec}
use nephos.Examples.InstanceCodec.{instance_codec}
use nephos.Examples.Data.{
  join, digest, entropy, vpc_id, vpc_input, subnet_input, one_vpc, one_subnet,
}

abbrev json_of : {A : Type 0} → A → Body A
json_of a = record { media_type = some (codes "application/json"); value = some a; at_end = true }

abbrev instance_input : RunInstanceInput
instance_input = record { name = codes "web"; subnet_id = codes "subnet-1" }

abbrev nameless : CreateVpcInput
nameless = record vpc_input { name = [] }

abbrev here : Str
here = codes "default"

blank_name :
    http_create_vpc here true join vpc_codec (json_of nameless) none (some entropy) 10 one_vpc
    ≡ unchanged one_vpc
        (api_error 400 (record { code = service_code invalid_parameter_value; resource_id = [] }))
unfolding http_create_vpc nephos.Api.Replies.checked nephos.Base.str_eq
    nephos.Api.Replies.decode_body
blank_name = refl

elsewhere :
    http_get_vpc (codes "other") true vpc_id one_vpc
    ≡ api_error 404 (record { code = invalid_workspace; resource_id = codes "other" })
unfolding http_get_vpc nephos.Api.Replies.checked nephos.Base.str_eq
elsewhere = refl

resource_effects_example :
    EffectOf here true 201 one_subnet (
      http_create_vpc here true join vpc_codec
        (json_of vpc_input)
        none
        (some entropy)
        30
        one_subnet)
    × EffectOf here true 201 one_subnet (
        http_create_subnet here true join subnet_codec
          (json_of subnet_input)
          none
          (some entropy)
          30
          one_subnet)
    × EffectOf here true 201 one_subnet (
        http_run_instance here true join digest instance_codec
          (json_of instance_input)
          none
          (some entropy)
          (some entropy)
          30
          one_subnet)
    × EffectOf here true 202 one_subnet (http_delete_vpc here true vpc_id 30 one_subnet)
    × EffectOf here true 202 one_subnet (http_delete_subnet here true vpc_id 30 one_subnet)
    × EffectOf here true 202 one_subnet (http_terminate_instance here true vpc_id 30 one_subnet)
resource_effects_example =
    resource_effects here true 30 one_subnet join digest vpc_codec subnet_codec instance_codec
      (json_of vpc_input) (json_of subnet_input) (json_of instance_input) none (some entropy)
      (some entropy) vpc_id
