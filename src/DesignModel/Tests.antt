-- ===== src/DesignModel/Tests.antt =====
-- What the programs of example/design_model/ print.
use cpp_freshman.Prelude.{none, some, [], ◌∷◌, ◌≡◌, refl, ascii}
use cpp_freshman.DesignModel.{All}
use cpp_freshman.DesignModel.AbstractFactory.{apple_factory, call, play, down, client}
use cpp_freshman.DesignModel.Brands.{IsOf, apple, client-IsOf}
use cpp_freshman.DesignModel.Strategy.{car_map_strategy, Context, sets, does, client_code}
use cpp_freshman.DesignModel.Methods.{factory_method_main, template_method_main}

client-IsOf_example :
    All (IsOf apple) (ascii "Apple Pc down" ∷ ascii "Apple Phone call" ∷ ascii "Apple Tv play" ∷ [])
unfolding client apple_factory
client-IsOf_example = client-IsOf apple (down ∷ call ∷ play ∷ [])

abbrev car : Context
car = record { strategy = some car_map_strategy }

null-client_code : client_code (sets none ∷ does ∷ []) car ≡ none
unfolding client_code
null-client_code = refl

main-factory_method :
    factory_method_main
    ≡ ascii "Hello, World!" ∷ ascii "ConcreteProductA" ∷ ascii "ConcreteProductB" ∷ []
unfolding factory_method_main
main-factory_method = refl

main-template_method :
    template_method_main
    ≡ ascii "clock time is" ∷ ascii "goofing" ∷ ascii "get_off_work time is" ∷ []
unfolding template_method_main
main-template_method = refl
