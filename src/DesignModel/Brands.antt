-- ===== src/DesignModel/Brands.antt =====
-- The families of products of example/design_model/abstract_factory/.
use cpp_freshman.Prelude.{ℕ, true, List, [], ◌∷◌, ◌++◌, ◌≡◌, refl, ascii}
use cpp_freshman.DesignModel.{Lines, All, starts}
use cpp_freshman.DesignModel.AbstractFactory.{
  AbstractFactory, apple_factory, huawei_factory, xiaomi_factory, Use, call, bell, work, down, play,
  open_tv, use_product, client,
}

All-append : (P : List ℕ → Type 0) (xs ys : Lines) → All P xs → All P ys → All P (xs ++ ys)
All-append P [] ys p q = q
All-append P (x ∷ xs) ys p q = (p.0, All-append P xs ys p.1 q)

pub data Brand : Type 0 where
  apple huawei xiaomi : Brand

abbrev pub factory_of : Brand → AbstractFactory
factory_of apple = apple_factory
factory_of huawei = huawei_factory
factory_of xiaomi = xiaomi_factory

abbrev pub name_of : Brand → List ℕ
name_of apple = ascii "Apple "
name_of huawei = ascii "Huawei "
name_of xiaomi = ascii "Xiaomi "

abbrev pub IsOf : Brand → List ℕ → Type 0
IsOf b line = starts (name_of b) line ≡ true

use_product-IsOf : (b : Brand) (u : Use) → All (IsOf b) (use_product (factory_of b) u)
unfolding use_product apple_factory huawei_factory xiaomi_factory
use_product-IsOf apple call = (refl, tt)
use_product-IsOf apple bell = (refl, tt)
use_product-IsOf apple work = (refl, tt)
use_product-IsOf apple down = (refl, tt)
use_product-IsOf apple play = (refl, tt)
use_product-IsOf apple open_tv = (refl, tt)
use_product-IsOf huawei call = (refl, tt)
use_product-IsOf huawei bell = (refl, tt)
use_product-IsOf huawei work = (refl, tt)
use_product-IsOf huawei down = (refl, tt)
use_product-IsOf huawei play = (refl, tt)
use_product-IsOf huawei open_tv = (refl, tt)
use_product-IsOf xiaomi call = (refl, tt)
use_product-IsOf xiaomi bell = (refl, tt)
use_product-IsOf xiaomi work = (refl, tt)
use_product-IsOf xiaomi down = (refl, tt)
use_product-IsOf xiaomi play = (refl, tt)
use_product-IsOf xiaomi open_tv = (refl, tt)

-- A client that has one factory, whatever it does with the products in whatever order, prints
-- lines of that factory's brand only.
pub client-IsOf : (b : Brand) (us : List Use) → All (IsOf b) (client (factory_of b) us)
unfolding client
client-IsOf b [] = tt
client-IsOf b (u ∷ us) =
    All-append (IsOf b) (use_product (factory_of b) u) (client (factory_of b) us)
      (use_product-IsOf b u) (client-IsOf b us)
