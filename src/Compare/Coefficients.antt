-- ===== src/Compare/Coefficients.antt =====
-- The coefficients of the polynomials of degree 64 in Compare.hpp, lowest first.
use quick_mpc.Prelude.{ℕ, List, [], ◌∷◌}

unfoldable pub f_65_or_coefficient : List ℕ
f_65_or_coefficient =
    18446744073709551493 ∷ 2575104960981055254 ∷ 4007652756006865783 ∷ 4100635666949508952
    ∷ 13520771370602560384 ∷ 10644542489970931539 ∷ 13748537863183121296 ∷ 11359914866391222416
    ∷ 11247219807349180267 ∷ 10960075435459066463 ∷ 16764588636202349672 ∷ 17506652363315270202
    ∷ 16166875542546532309 ∷ 3964617125041583173 ∷ 11719255904316824165 ∷ 10424936898019828672
    ∷ 4205127743406738449 ∷ 14520034406506226582 ∷ 13839012095455519695 ∷ 10500139574289659412
    ∷ 2962336181382223452 ∷ 6767675871271430215 ∷ 6933421926280334339 ∷ 15958841553693851655
    ∷ 15160740279984758829 ∷ 7422142630459751295 ∷ 8493480566397125402 ∷ 5197722549818600602
    ∷ 14735780618044279429 ∷ 1253747699690153233 ∷ 16331314050017923346 ∷ 8939522708637072316
    ∷ 14886963398089785966 ∷ 9073751420990236602 ∷ 12505410719513991034 ∷ 2125245660187079351
    ∷ 15846075763828250700 ∷ 3886182126918060030 ∷ 8108428213219044342 ∷ 7230779232974847667
    ∷ 16872135629383927467 ∷ 6378144199063646497 ∷ 17663587804867607672 ∷ 16148746862917335565
    ∷ 15537620600452524460 ∷ 5258026759045415754 ∷ 13903054235566673560 ∷ 13960238641761739087
    ∷ 17636644537631434137 ∷ 14478303024279957496 ∷ 2874963986830092253 ∷ 3027861925099033411
    ∷ 3827102190137661457 ∷ 12528878074288803348 ∷ 5215393447045447612 ∷ 9586533887964671917
    ∷ 3356091034157294274 ∷ 2902984712153508625 ∷ 6333090465997358509 ∷ 9996528576620247823
    ∷ 11806089667835996467 ∷ 15792408873328964335 ∷ 14951514151164516184 ∷ 2230240327554514938
    ∷ 17774600287293087221 ∷ []

unfoldable pub f_65_and_coefficient : List ℕ
f_65_and_coefficient =
    1 ∷ 1095567251290110014 ∷ 15603599130927532848 ∷ 3927973679664754768 ∷ 13253920145236317331
    ∷ 5072689204291235733 ∷ 3435840349470671764 ∷ 16549778763406408630 ∷ 12459576446030141042
    ∷ 10696557716079594807 ∷ 3197018912709867365 ∷ 9970630734852788482 ∷ 10106868463622397398
    ∷ 6870526778099185113 ∷ 16162773849234898198 ∷ 6512084038109877353 ∷ 17791231165580233294
    ∷ 4939553442392971102 ∷ 6613779837673282520 ∷ 6112835044719072700 ∷ 11561852329015516476
    ∷ 3241087653075867336 ∷ 11115359391888299599 ∷ 1734929295488186025 ∷ 11958404333307668373
    ∷ 1438215050425705879 ∷ 11073690707525551423 ∷ 17532628264929026480 ∷ 6082710703763137390
    ∷ 5125529121156609847 ∷ 3536240549677738615 ∷ 168123567554747533 ∷ 17222647251913610444
    ∷ 6314115150414057577 ∷ 5720266728093558989 ∷ 11315745394801430483 ∷ 13585209705064903598
    ∷ 10609659846084906928 ∷ 6341781282790677798 ∷ 394864220565298862 ∷ 5249871464994426133
    ∷ 13296832158245447365 ∷ 12801767259528789327 ∷ 8166545265620715462 ∷ 12622067858020089155
    ∷ 10852787575795086238 ∷ 15358952924301378654 ∷ 14141418894305759068 ∷ 13215619082908852856
    ∷ 9900973216959770499 ∷ 11398882017370494561 ∷ 1875791515713213273 ∷ 18179510337970552075
    ∷ 12349041994205078879 ∷ 4559441349647564738 ∷ 4543633939816633313 ∷ 9247229033112764012
    ∷ 9230709934058803069 ∷ 12860062884571458050 ∷ 14898881793951465380 ∷ 9282848170176021024
    ∷ 16257860633325038337 ∷ 546853837372292893 ∷ 3893473855680099452 ∷ 672143786416464336 ∷ []
