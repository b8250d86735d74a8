-- ===== src/InstanceType/Samples.antt =====
-- Quantities that are whole numbers or those of the node class of the tests, percentages in whole
-- numbers, and a flavor with 4 GiB.
use karpenter_provider_huawe.Base.{ℕ, ◌*◌, ◌/◌, refl, Option, none, some, ◌==◌, if◌then◌else◌, eqb}
use karpenter_provider_huawe.Base.Int.{ℤ, pos, pos_part}
use karpenter_provider_huawe.Ext.Ecs.{Flavor}
use karpenter_provider_huawe.Ext.Float32.{Float32}
use karpenter_provider_huawe.Instance.Kubelet.{Quantities, parse_int32}
use karpenter_provider_huawe.Instance.Samples.{thousandths}
use karpenter_provider_huawe.InstanceType.Resolved.{IntegersParse}

abbrev pub of_integer : Option ℤ → Option ℕ → Option ℕ
of_integer none other = other
of_integer (some z) other = some (pos_part z * 1000)

abbrev pub with_integers : Quantities
with_integers = record thousandths { parse = λ t. of_integer (parse_int32 t) (thousandths.parse t) }

pub with_integers-IntegersParse : IntegersParse with_integers
with_integers-IntegersParse t v h = rw h refl

abbrev pub whole_percents : Float32
whole_percents = record {
  Float = ℕ;
  zero = 0;
  parse = λ t. if t == "10" then some 10 else none;
  is_100 = λ p. eqb p 100;
  hundredth = λ p. p;
  scale = λ z p. pos (pos_part z * p / 100);
}

abbrev pub flavor : Flavor
flavor = record {
  id = "c7.large.2";
  name = "c7.large.2";
  vcpus = "2";
  ram = 4096;
  os_extra_specs = none;
}
