-- ===== src/DesignModel/AbstractFactory.antt =====
-- example/design_model/abstract_factory/ and abstract_factory_main.cpp: three factories, each of
-- which makes a phone, a television and a computer of its own brand.
use cpp_freshman.Prelude.{List, [], ◌∷◌, ◌++◌, ascii}
use cpp_freshman.DesignModel.{Lines}

-- The abstract classes: their virtual functions, with what each prints.
pub record AbstractPhoneProduct : Type 0 where
  pub call : Lines
  pub bell : Lines

pub record AbstractTvProduct : Type 0 where
  pub open_tv : Lines
  pub play : Lines

pub record AbstractPcProduct : Type 0 where
  pub work : Lines
  pub down : Lines

pub record AbstractFactory : Type 0 where
  pub create_phone : AbstractPhoneProduct
  pub create_tv : AbstractTvProduct
  pub create_pc : AbstractPcProduct

unfoldable pub apple_phone : AbstractPhoneProduct
apple_phone = record { call = ascii "Apple Phone call" ∷ []; bell = ascii "Apple Phone bell" ∷ [] }

unfoldable pub apple_tv : AbstractTvProduct
apple_tv = record { play = ascii "Apple Tv play" ∷ []; open_tv = ascii "Apple Tv open" ∷ [] }

unfoldable pub apple_pc : AbstractPcProduct
apple_pc = record { work = ascii "Apple Pc" ∷ []; down = ascii "Apple Pc down" ∷ [] }

unfoldable pub apple_factory : AbstractFactory
unfolding apple_phone apple_tv apple_pc
apple_factory = record { create_phone = apple_phone; create_tv = apple_tv; create_pc = apple_pc }

unfoldable pub huawei_phone : AbstractPhoneProduct
huawei_phone = record {
  call = ascii "Huawei Phone call" ∷ [];
  bell = ascii "Huawei Phone bell" ∷ [];
}

unfoldable pub huawei_tv : AbstractTvProduct
huawei_tv = record { play = ascii "Huawei Tv play" ∷ []; open_tv = ascii "Huawei Tv open" ∷ [] }

unfoldable pub huawei_pc : AbstractPcProduct
huawei_pc = record { work = ascii "Huawei Pc" ∷ []; down = ascii "Huawei Pc down" ∷ [] }

unfoldable pub huawei_factory : AbstractFactory
unfolding huawei_phone huawei_tv huawei_pc
huawei_factory = record {
  create_phone = huawei_phone;
  create_tv = huawei_tv;
  create_pc = huawei_pc;
}

unfoldable pub xiaomi_phone : AbstractPhoneProduct
xiaomi_phone = record {
  call = ascii "Xiaomi Phone call" ∷ [];
  bell = ascii "Xiaomi Phone bell" ∷ [];
}

unfoldable pub xiaomi_tv : AbstractTvProduct
xiaomi_tv = record { play = ascii "Xiaomi Tv play" ∷ []; open_tv = ascii "Xiaomi Tv open" ∷ [] }

unfoldable pub xiaomi_pc : AbstractPcProduct
xiaomi_pc = record { work = ascii "Xiaomi Pc" ∷ []; down = ascii "Xiaomi Pc down" ∷ [] }

unfoldable pub xiaomi_factory : AbstractFactory
unfolding xiaomi_phone xiaomi_tv xiaomi_pc
xiaomi_factory = record {
  create_phone = xiaomi_phone;
  create_tv = xiaomi_tv;
  create_pc = xiaomi_pc;
}

-- What a client does with the products of one factory.
pub data Use : Type 0 where
  call bell work down play open_tv : Use

unfoldable pub use_product : AbstractFactory → Use → Lines
use_product f call = f.create_phone.call
use_product f bell = f.create_phone.bell
use_product f work = f.create_pc.work
use_product f down = f.create_pc.down
use_product f play = f.create_tv.play
use_product f open_tv = f.create_tv.open_tv

unfoldable pub client : AbstractFactory → List Use → Lines
unfolding use_product
client f [] = []
client f (u ∷ us) = use_product f u ++ client f us

abbrev pub main_uses : List Use
main_uses = bell ∷ call ∷ down ∷ work ∷ play ∷ open_tv ∷ []

unfoldable pub factory_main : Lines
unfolding client apple_factory huawei_factory xiaomi_factory
factory_main =
    client apple_factory main_uses
    ++ (client huawei_factory main_uses ++ client xiaomi_factory main_uses)
