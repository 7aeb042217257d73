-- ===== src/DesignModel/Methods.antt =====
-- example/design_model/factory_method/ and template_method/, with their programs.
use cpp_freshman.Prelude.{[], ◌∷◌, ◌++◌, ascii}
use cpp_freshman.DesignModel.{Lines}

-- A product by the line that `use` prints, and a factory by its product.
pub record ConcreteProduct : Type 0 where
  pub use_line : Lines

unfoldable pub concrete_product_a : ConcreteProduct
concrete_product_a = record { use_line = ascii "ConcreteProductA" ∷ [] }

unfoldable pub concrete_product_b : ConcreteProduct
concrete_product_b = record { use_line = ascii "ConcreteProductB" ∷ [] }

pub record MethodFactory : Type 0 where
  pub create_product : ConcreteProduct

unfoldable pub concrete_factory_a : MethodFactory
unfolding concrete_product_a
concrete_factory_a = record { create_product = concrete_product_a }

unfoldable pub concrete_factory_b : MethodFactory
unfolding concrete_product_b
concrete_factory_b = record { create_product = concrete_product_b }

unfoldable pub factory_method_main : Lines
unfolding concrete_factory_a concrete_factory_b
factory_method_main =
    ascii "Hello, World!"
    ∷ (concrete_factory_a.create_product.use_line ++ concrete_factory_b.create_product.use_line)

-- `Library`, whose `run` calls the method that a subclass can override.
pub record Library : Type 0 where
  pub do_bussiness : Lines

unfoldable pub library : Library
library = record { do_bussiness = ascii "xxx" ∷ [] }

unfoldable pub application : Library
application = record { do_bussiness = ascii "goofing" ∷ [] }

unfoldable pub clock : Lines
clock = ascii "clock time is" ∷ []

unfoldable pub get_off_work : Lines
get_off_work = ascii "get_off_work time is" ∷ []

unfoldable pub run_library : Library → Lines
unfolding clock get_off_work
run_library l = clock ++ (l.do_bussiness ++ get_off_work)

unfoldable pub template_method_main : Lines
unfolding run_library application
template_method_main = run_library application
