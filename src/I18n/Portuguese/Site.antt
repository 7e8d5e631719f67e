-- ===== src/I18n/Portuguese/Site.antt =====
-- web/lib/i18n/pt.ts: the Portuguese texts of the other public pages.
use wgtemporary_email.Base.{String, [], ◌∷◌}
use wgtemporary_email.Base.Dict.{Dict}

abbrev pub pt_nav : Dict String
pt_nav =
    ("about", "Sobre")
    ∷ ("privacy", "Privacidade")
    ∷ ("api", "API")
    ∷ ("permanentMailbox", "Caixa permanente")
    ∷ ("tempMailbox", "Caixa temporária")
    ∷ []

abbrev pub pt_about : Dict String
pt_about =
    ("aboutTitle", "Sobre o WGTemporaryEmail")
    ∷ (
      "aboutDesc",
      "Um serviço de e-mail temporário descartável focado em privacidade. Código aberto, auto-hospedado, sem anúncios, sem rastreamento.",
    )
    ∷ (
      "aboutP1",
      "Abra a página inicial para obter instantaneamente um endereço de e-mail temporário, sem cadastro e sem dados pessoais. Use-o para códigos de verificação, cadastros de teste ou assinaturas de teste e mantenha sua caixa real livre de spam. Endereços e e-mails são excluídos automaticamente após um período definido.",
    )
    ∷ (
      "aboutP2",
      "Este projeto é implantado em contêineres (PostgreSQL + FastAPI + servidor de e-mail Go + interface web), então você pode executá-lo facilmente no seu próprio servidor.",
    )
    ∷ ("feature1T", "Geração instantânea")
    ∷ ("feature1D", "Endereço aleatório com um clique, com suporte a nomes personalizados")
    ∷ ("feature2T", "Expiração automática")
    ∷ ("feature2D", "Endereços e e-mails são limpos automaticamente, sem deixar rastros")
    ∷ ("feature3T", "Verificações de segurança")
    ∷ ("feature3D", "Mostra os resultados de validação DKIM / SPF / DMARC")
    ∷ ("feature4T", "Suporte completo a e-mail")
    ∷ ("feature4D", "HTML / texto simples / anexos / download do e-mail original")
    ∷ ("feature5T", "Totalmente código aberto")
    ∷ ("feature5D", "Código-fonte público, aberto a revisão e desenvolvimento")
    ∷ ("feature6T", "Sem anúncios nem rastreamento")
    ∷ ("feature6D", "Sem anúncios e sem scripts de rastreamento")
    ∷ ("relationTitle", "Relação com os projetos de origem")
    ∷ ("relationDesc", "Espírito do código aberto - sobre ombros de gigantes")
    ∷ (
      "relationP1",
      "O WGTemporaryEmail não foi construído do zero; ele é integrado a partir de dois excelentes projetos de código aberto:",
    )
    ∷ (
      "relationP2",
      "Além desses projetos de origem, este projeto adiciona: painel de administração em chinês (estatísticas, gerenciamento de e-mails/endereços/domínios, atualização a quente da configuração), assistente de configuração inicial, reforço de segurança (limitação de taxa, sanitização de XSS, atualizações de segurança de dependências), limite de armazenamento com limpeza automática e mais.",
    )
    ∷ (
      "relationP3",
      "Todos os projetos de origem e este projeto usam a licença MIT, com os avisos de copyright originais preservados. Obrigado ao Lm36 pelo excelente trabalho.",
    )
    ∷ ("sourceTitle", "Código-fonte")
    ∷ ("sourceDesc", "Stars, forks e issues são bem-vindos")
    ∷ ("sourceNote", "Para relatos de bugs e pedidos de recursos, abra uma issue no GitHub.")
    ∷ ("demoLabel", "Demo ao vivo")
    ∷ []

abbrev pub pt_privacy : Dict String
pt_privacy =
    ("privacyTitle", "Política de Privacidade")
    ∷ (
      "privacyDesc",
      "O WGTemporaryEmail foi projetado com a privacidade no centro: sem cadastro, sem anúncios, sem rastreamento. Esta página explica como o serviço armazena e processa dados.",
    )
    ∷ (
      "scopeNote",
      "Esta política se aplica a esta instância do serviço de e-mail temporário (\"o Serviço\").",
    )
    ∷ ("collectTitle", "Dados que coletamos e armazenamos")
    ∷ ("collectP1", "Para fornecer o recurso de caixa de entrada, o Serviço armazena no servidor:")
    ∷ ("collectL1", "Os endereços de e-mail temporário que você cria e seu horário de expiração")
    ∷ (
      "collectL2",
      "Os e-mails enviados para esses endereços, incluindo remetente, assunto, corpo e anexos",
    )
    ∷ (
      "collectL3",
      "Um token de acesso aleatório vinculado ao endereço (usado para verificar seu acesso)",
    )
    ∷ (
      "collectP2",
      "Seu navegador (localStorage) guarda o endereço e o token atuais para você continuar na próxima vez. Esses dados permanecem apenas no seu dispositivo.",
    )
    ∷ ("retentionTitle", "Retenção e exclusão de dados")
    ∷ (
      "retentionL1",
      "Endereços e e-mails são mantidos por 24 horas por padrão e depois excluídos automaticamente (a retenção pode variar conforme a configuração do serviço)",
    )
    ∷ (
      "permanentMailboxNote",
      "Caixas permanentes: o endereço é mantido até você excluí-lo e os e-mails são removidos automaticamente após o período de retenção configurado (30 dias por padrão).",
    )
    ∷ ("retentionL2", "Você pode excluir e-mails manualmente na interface a qualquer momento")
    ∷ (
      "retentionL3",
      "Quando o limite de e-mails por endereço é excedido, os mais antigos são limpos automaticamente",
    )
    ∷ ("retentionL4", "Dados excluídos não podem ser recuperados")
    ∷ (
      "storageNote",
      "Quando o total de e-mails armazenados ultrapassa o limite configurado, os mais antigos são excluídos automaticamente.",
    )
    ∷ ("notCollectTitle", "O que NÃO coletamos")
    ∷ (
      "notCollectL1",
      "Sem cadastro ou login; nunca pedimos seu nome, e-mail real, telefone ou qualquer informação pessoal",
    )
    ∷ ("notCollectL2", "Sem anúncios e sem scripts de rastreamento ou análise de terceiros")
    ∷ ("notCollectL3", "Sem venda, compartilhamento ou transferência de dados a terceiros")
    ∷ ("securityTitle", "Conteúdo do e-mail e segurança")
    ∷ (
      "securityL1",
      "Corpos e anexos dos e-mails são armazenados no banco de dados do servidor e excluídos junto com o e-mail",
    )
    ∷ (
      "securityL2",
      "E-mails HTML são sanitizados antes da renderização para evitar scripts maliciosos",
    )
    ∷ (
      "securityL3",
      "Acessar uma caixa de entrada requer o token de acesso aleatório correspondente - não o compartilhe",
    )
    ∷ ("securityL4", "Os resultados de validação DKIM / SPF / DMARC são exibidos como referência")
    ∷ (
      "tlsNote",
      "O transporte de e-mail é criptografado com STARTTLS (TLS 1.2/1.3); o painel web é servido via HTTPS.",
    )
    ∷ ("disclaimerTitle", "Dicas de uso e aviso legal")
    ∷ (
      "disclaimerP1",
      "O e-mail temporário é adequado para cenários de uso único, como códigos de verificação e cadastros de teste. Não o use para: vincular contas importantes, serviços bancários/de pagamento ou outros serviços sensíveis, nem para receber e-mails que você não pode perder - todos os e-mails são excluídos permanentemente após a expiração do endereço.",
    )
    ∷ (
      "disclaimerP2",
      "Não envie nem receba informações pessoais sensíveis pelo e-mail temporário. O Serviço não se responsabiliza pelas consequências da exclusão de dados.",
    )
    ∷ ("contactTitle", "Fale conosco")
    ∷ ("contactP1", "Este projeto é totalmente código aberto. Código-fonte:")
    ∷ (
      "contactP2",
      "Para dúvidas de privacidade ou pedidos de remoção de dados, abra uma issue no GitHub.",
    )
    ∷ []

abbrev pub pt_mailbox : Dict String
pt_mailbox =
    ("title", "Caixa permanente")
    ∷ (
      "desc",
      "O endereço da caixa é mantido para sempre; os e-mails são mantidos por 30 dias por padrão. Guarde seu token de acesso com segurança.",
    )
    ∷ ("createTitle", "Criar uma caixa permanente")
    ∷ ("usernamePlaceholder", "seunome")
    ∷ ("createBtn", "Criar caixa")
    ∷ ("creating", "Criando...")
    ∷ ("createdNote", "Criada! Salve agora o token de acesso (exibido apenas uma vez):")
    ∷ ("copyToken", "Copiar token")
    ∷ ("showToken", "Mostrar token")
    ∷ ("hideToken", "Ocultar token")
    ∷ ("copied", "Copiado")
    ∷ ("loginTitle", "Entrar em uma caixa permanente")
    ∷ ("tokenPlaceholder", "Digite o token de acesso")
    ∷ ("loginBtn", "Entrar")
    ∷ ("logout", "Sair")
    ∷ ("myEmail", "Minha caixa: {email}")
    ∷ ("retentionNote", "Os e-mails são mantidos por {days} dias; o endereço nunca expira")
    ∷ ("noEmails", "Ainda não há e-mails")
    ∷ ("noSubject", "(Sem assunto)")
    ∷ ("new", "Novo")
    ∷ ("noContent", "Sem conteúdo")
    ∷ ("attachments", "Anexos")
    ∷ ("deleteEmail", "Excluir este e-mail")
    ∷ ("deleteConfirm", "Excluir este e-mail?")
    ∷ ("failedCreate", "Falha ao criar. Tente novamente.")
    ∷ ("failedLogin", "Token inválido ou a caixa não existe")
    ∷ ("usernameTaken", "Este nome de usuário já está em uso")
    ∷ ("needUsername", "Digite um nome de usuário")
    ∷ []
